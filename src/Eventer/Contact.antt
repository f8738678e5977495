-- ===== src/Eventer/Contact.antt =====
-- The complaints about servers and clusters out of contact, and the recoveries that follow them.
use calamari.Prelude.{
  ℕ, ◌≡◌, ◌∙◌, refl, Bool, true, false, not, ◌&&◌, Option, none, some, List, [], ◌∷◌, ◌++◌, ◌==◌,
  if◌then◌else◌, elem, inl, inr, arith, Bool-cases,
}
use calamari.Exec.Rules.{Keeps}
use calamari.Eventer.{
  State, Event, Message, emit, flush, event, warning, recovery, complain_server, recover_server,
  complain_cluster, recover_cluster, discard, server_late, server_regained, cluster_late,
  cluster_regained,
}

-- What a message says of contact with the server: `true` complains, `false` tells a recovery.
abbrev pub about_server : ℕ → Event → Option Bool
about_server fqdn e = go e.message
  where
    go : Message → Option Bool
    go (server_late f last) = if f == fqdn then some true else none
    go (server_regained f) = if f == fqdn then some false else none
    go _ = none

abbrev pub about_cluster : ℕ → Event → Option Bool
about_cluster fsid e = go e.message
  where
    same : Option ℕ → Bool → Option Bool
    same none said = none
    same (some f) said = if f == fsid then some said else none

    go : Message → Option Bool
    go (cluster_late name) = same e.fsid true
    go (cluster_regained name) = same e.fsid false
    go _ = none

-- The events in order, where complaints and recoveries must take turns: whether the last one is a
-- complaint, or `none` where two of a kind follow each other.
abbrev pub turn : Option Bool → Option Bool → Option Bool
turn none said = none
turn (some b) none = some b
turn (some b) (some c) = if b then (if c then none else some c) else (if c then some c else none)

unfoldable pub contact : (Event → Option Bool) → Option Bool → List Event → Option Bool
contact about b [] = b
contact about b (e ∷ es) = contact about (turn b (about e)) es

contact-append :
    (about : Event → Option Bool) (b : Option Bool) (k l : List Event)
    → contact about b (k ++ l) ≡ contact about (contact about b k) l
unfolding contact
contact-append about b [] l = refl
contact-append about b (e ∷ k) l = contact-append about (turn b (about e)) k l

-- All events so far, of which some are not saved yet
abbrev pub told : (Event → Option Bool) → State → Option Bool
told about s = contact about (contact about (some false) s.saved) s.events

-- Complaints and recoveries take turns, and what is complained about is what was last complained of.
pub record IsTold (s : State) : Type 0 where
  pub of_servers : (fqdn : ℕ) → told (about_server fqdn) s ≡ some (elem fqdn s.servers_complained)
  pub of_clusters :
      (fsid : ℕ) → told (about_cluster fsid) s ≡ some (elem fsid s.clusters_complained)

-- An event about something else
pub record IsNews (e : Event) : Type 0 where
  pub no_server : (fqdn : ℕ) → about_server fqdn e ≡ none
  pub no_cluster : (fsid : ℕ) → about_cluster fsid e ≡ none

-- Whether a message is a complaint or a recovery
abbrev pub is_contact : Message → Bool
is_contact (server_late f last) = true
is_contact (server_regained f) = true
is_contact (cluster_late name) = true
is_contact (cluster_regained name) = true
is_contact _ = false

pub is_contact-IsNews : (e : Event) → is_contact e.message ≡ false → IsNews e
is_contact-IsNews e h = record {
  no_server = λ f. ground (arith, h);
  no_cluster = λ f. ground (arith, h);
}

pub elem-discard : (n k : ℕ) (xs : List ℕ) → elem k (discard n xs) ≡ (elem k xs && not (n == k))
elem-discard n k [] = refl
elem-discard n k (x ∷ xs) = ground (arith, elem-discard n k xs)

-- One more event
told-emit :
    (about : Event → Option Bool) (e : Event) (s : State)
    → told about (emit e s).1 ≡ turn (told about s) (about e)
unfolding emit contact
told-emit about e s = contact-append about (contact about (some false) s.saved) s.events (e ∷ [])

nothing_said : (o : Option Bool) → turn o none ≡ o
nothing_said none = refl
nothing_said (some b) = refl

pub emit-IsTold : (e : Event) → IsNews e → Keeps IsTold (emit e)
unfolding emit
emit-IsTold e n s h = record {
  of_servers = λ f.
      told-emit (about_server f) e s
      ∙ rw (n.no_server f) (nothing_said (told (about_server f) s))
      ∙ h.of_servers f;
  of_clusters = λ f.
      told-emit (about_cluster f) e s
      ∙ rw (n.no_cluster f) (nothing_said (told (about_cluster f) s))
      ∙ h.of_clusters f;
}

pub flush-IsTold : Keeps IsTold flush
unfolding flush contact
flush-IsTold s h = record {
  of_servers = λ f. contact-append (about_server f) (some false) s.saved s.events ∙ h.of_servers f;
  of_clusters =
      λ f. contact-append (about_cluster f) (some false) s.saved s.events ∙ h.of_clusters f;
}

pub complain_server-IsTold :
    (fqdn last : ℕ) (fsid : Option ℕ) → Keeps IsTold (complain_server fqdn last fsid)
unfolding complain_server emit
complain_server-IsTold fqdn last fsid s h = elim (Bool-cases (elem fqdn s.servers_complained)) [
  | inl e ↦ rw (e) h
  | inr e ↦
      let said = event warning (server_late fqdn last) (some fqdn) fsid in
      rw (e) (record {
        of_servers = λ f. told-emit (about_server f) said s ∙ rw (h.of_servers f) (ground arith);
        of_clusters = λ f. told-emit (about_cluster f) said s ∙ rw (h.of_clusters f) refl;
      })
]

pub recover_server-IsTold : (fqdn : ℕ) (fsid : Option ℕ) → Keeps IsTold (recover_server fqdn fsid)
unfolding recover_server emit
recover_server-IsTold fqdn fsid s h = elim (Bool-cases (elem fqdn s.servers_complained)) [
  | inr e ↦ rw (e) h
  | inl e ↦
      let said = event recovery (server_regained fqdn) (some fqdn) fsid in
      rw (e) (record {
        of_servers = λ f.
            told-emit (about_server f) said s
            ∙ rw (h.of_servers f, elem-discard fqdn f s.servers_complained) (ground arith);
        of_clusters = λ f. told-emit (about_cluster f) said s ∙ rw (h.of_clusters f) refl;
      })
]

pub complain_cluster-IsTold : (fsid name : ℕ) → Keeps IsTold (complain_cluster fsid name)
unfolding complain_cluster emit
complain_cluster-IsTold fsid name s h = elim (Bool-cases (elem fsid s.clusters_complained)) [
  | inl e ↦ rw (e) h
  | inr e ↦
      let said = event warning (cluster_late name) none (some fsid) in
      rw (e) (record {
        of_servers = λ f. told-emit (about_server f) said s ∙ rw (h.of_servers f) refl;
        of_clusters = λ f. told-emit (about_cluster f) said s ∙ rw (h.of_clusters f) (ground arith);
      })
]

pub recover_cluster-IsTold : (fsid name : ℕ) → Keeps IsTold (recover_cluster fsid name)
unfolding recover_cluster emit
recover_cluster-IsTold fsid name s h = elim (Bool-cases (elem fsid s.clusters_complained)) [
  | inr e ↦ rw (e) h
  | inl e ↦
      let said = event recovery (cluster_regained name) none (some fsid) in
      rw (e) (record {
        of_servers = λ f. told-emit (about_server f) said s ∙ rw (h.of_servers f) refl;
        of_clusters = λ f.
            told-emit (about_cluster f) said s
            ∙ rw (h.of_clusters f, elem-discard fsid f s.clusters_complained) (ground arith);
      })
]
