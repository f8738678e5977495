-- ===== src/TgtManager.antt =====
-- rest-api/calamari_rest/sservice/iscsi/tgt_manager.py and target.py: the configuration of the iSCSI
-- targets. `Conf` is what is stored, its validation and the lines for tgt-admin, `Targets` the methods
-- of TgtManager, `Target` and `Luns` those of Target. The other children are proofs.
pub mod Conf
pub mod Targets
pub mod Target
pub mod Luns
pub mod Distinct
pub mod Fitting
pub mod Reachable
pub mod Full
pub mod Renaming
pub mod Changing
pub mod Operations
