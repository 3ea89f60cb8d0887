-- ===== src/Taskflow/Threads/Bounded.antt =====
-- listener.py: the size of the table `_atom_spans` in several threads.
use opentelemetry_openstack.Prelude.{
  suc, ◌≤◌, sym, ap, if◌then◌else◌, String, ◌≡◌, refl, ◌∙◌, Bool, true, false, Option, none, List,
  [], ◌∷◌, ◌||◌, Bool-cases, inl, inr, arith, All, length,
}
use opentelemetry_openstack.Py.Dict.{
  Dict, lookup, erase, NodupKeys, erase-NodupKeys, erase-absent, lookup-erase,
}
use opentelemetry_openstack.Otel.Span.{Telemetry}
use opentelemetry_openstack.Otel.Laws.{Exports}
use opentelemetry_openstack.Taskflow.Notification.{
  State, running, success, failure, reverting, reverted, revert_failure, suspended, Method, execute,
  revert, Notification, flow, atom, AtomKey, atom_key, same_uuid, same_key, same_key_iff,
}
use opentelemetry_openstack.Taskflow.Listener.{Graph}
use opentelemetry_openstack.Taskflow.Listener.Protocol.{Protocol, advance, Implements}
use opentelemetry_openstack.Taskflow.Listener.Balance.{IsBalanced}
use opentelemetry_openstack.Taskflow.Threads.{System, Run}
use opentelemetry_openstack.Taskflow.Threads.Balance.{all_taken, run-IsBalanced}
use opentelemetry_openstack.Taskflow.Threads.Quiet.{
  reached, empty_of_absent, none_of_absent, run-Implements,
}

abbrev known_uuid : Option String → List (Option String) → Bool
known_uuid u [] = false
known_uuid u (v ∷ vs) = same_uuid v u || known_uuid u vs

abbrev known_key : AtomKey → List AtomKey → Bool
known_key j [] = false
known_key j (k ∷ ks) = same_key k j || known_key j ks

-- The phases of some atoms.
abbrev pub phases : List (Option String) → List AtomKey
phases [] = []
phases (u ∷ us) = (u, execute) ∷ (u, revert) ∷ phases us

-- Those of some phases that are open.
abbrev pub still_open : (AtomKey → Bool) → List AtomKey → List AtomKey
still_open f [] = []
still_open f (k ∷ ks) = if f k then k ∷ still_open f ks else still_open f ks

known_key-still_open :
    (f : AtomKey → Bool) (j : AtomKey) (ks : List AtomKey)
    → known_key j (still_open f ks) ≡ false
    → f j ≡ true
    → known_key j ks ≡ false
known_key-still_open f j [] h began = refl
known_key-still_open f j (k ∷ ks) h began = elim (Bool-cases (f k)) [
  | inl is_open ↦ let h' = rw is_open at h in ground (arith, known_key-still_open f j ks, h')
  | inr is_closed ↦ elim (Bool-cases (same_key k j)) [
    | inl same ↦ let e = (same_key_iff k j).0 same in let shut = ap f (sym e) ∙ is_closed in cc
    | inr other ↦ rw other (known_key-still_open f j ks (rw is_closed at h) began)
  ]
]

-- A notification of a flow, or of one of the atoms with the given uuids.
abbrev pub IsAbout : List (Option String) → Notification → Type 0
IsAbout us (flow state d) = Unit
IsAbout us (atom kind state d) = known_uuid d.uuid us ≡ true

known_phase :
    (us : List (Option String)) (u : Option String) (m : Method)
    → known_uuid u us ≡ true
    → known_key (u, m) (phases us) ≡ true
known_phase [] u m h = cc
known_phase (v ∷ us) u execute h = ground (arith, known_phase us u execute)
known_phase (v ∷ us) u revert h = ground (arith, known_phase us u revert)

module _ {V : Type 0} where
  length-erase :
      (k : AtomKey) (d : Dict AtomKey V) → NodupKeys d → length d ≤ suc (length (erase k d))
  unfolding erase
  length-erase k [] u = omega arith
  length-erase k ((j, v) ∷ d) (fresh, u) = elim (Bool-cases (same_key j k)) [
    | inl same ↦ rw (same, erase-absent k d (rw ((same_key_iff j k).0 same) at fresh)) (omega arith)
    | inr other ↦ rw other (omega (arith, length-erase k d u))
  ]

  outside :
      (k j : AtomKey) (ks : List AtomKey) (d : Dict AtomKey V)
      → (known_key j (k ∷ ks) ≡ false → lookup j d ≡ none)
      → known_key j ks ≡ false
      → lookup j (erase k d) ≡ none
  outside k j ks d h other = ground (arith, lookup-erase k j d)

  length-le :
      (ks : List AtomKey) (d : Dict AtomKey V)
      → NodupKeys d
      → ((j : AtomKey) → known_key j ks ≡ false → lookup j d ≡ none)
      → length d ≤ length ks
  length-le [] d u h = rw (empty_of_absent d (λ k. rw (h k refl) refl)) (omega arith)
  length-le (k ∷ ks) d u h =
      let shorter =
        length-le ks (erase k d) (erase-NodupKeys k d u) (λ j. outside k j ks d (h j)) in
      omega (arith, shorter, length-erase k d u)

module _ (us : List (Option String)) where
  abbrev IsClosedOff : Protocol → Type 0
  IsClosedOff p = (j : AtomKey) → known_key j (phases us) ≡ false → p.atom_open j ≡ false

  advance-IsClosedOff :
      (n : Notification) (p : Protocol) → IsAbout us n → IsClosedOff p → IsClosedOff (advance n p)
  advance-IsClosedOff (flow running d) p about h j unknown = h j unknown
  advance-IsClosedOff (flow success d) p about h j unknown = h j unknown
  advance-IsClosedOff (flow failure d) p about h j unknown = h j unknown
  advance-IsClosedOff (flow reverted d) p about h j unknown = h j unknown
  advance-IsClosedOff (flow revert_failure d) p about h j unknown = h j unknown
  advance-IsClosedOff (flow suspended d) p about h j unknown = h j unknown
  advance-IsClosedOff (flow _ d) p about h j unknown = h j unknown
  advance-IsClosedOff (atom kind running d) p about h j unknown =
      ground (arith, h j, known_phase us d.uuid execute about, same_key_iff (d.uuid, execute) j)
  advance-IsClosedOff (atom kind reverting d) p about h j unknown =
      ground (arith, h j, known_phase us d.uuid revert about, same_key_iff (d.uuid, revert) j)
  advance-IsClosedOff (atom kind _ d) p about h j unknown = ground (arith, h j)

  reached-IsClosedOff :
      (ns : List Notification) (p : Protocol)
      → All (IsAbout us) ns
      → IsClosedOff p
      → IsClosedOff (reached ns p)
  reached-IsClosedOff [] p about h = h
  reached-IsClosedOff (n ∷ ns) p (about_n, about) h =
      advance-IsClosedOff n (reached ns p) about_n (reached-IsClosedOff ns p about h)

  -- From a system whose spans are balanced and whose listener implements a state of the protocol in
  -- which no phase is open of an atom without one of the given uuids, after a run in any
  -- interleaving whose notifications are of flows or of atoms with one of these uuids, the table of
  -- spans has at most as many entries as these atoms have phases that are still open by the
  -- notifications, however many there were.
  pub atom_spans_bounded :
      {T : Telemetry} (x : Exports T) (state_text : State → String) (graph : Graph)
      {s t : System T state_text} {ns : List Notification} (p : Protocol)
      → Run T state_text graph s ns t
      → IsBalanced x (all_taken s.threads s.others) s.listener
      → Implements s.listener p
      → ((j : AtomKey) → known_key j (phases us) ≡ false → p.atom_open j ≡ false)
      → All (IsAbout us) ns
      → length t.listener.atom_spans ≤ length (still_open (reached ns p).atom_open (phases us))
  atom_spans_bounded x state_text graph {t} {ns} p r balanced implements closed about =
      let balance = run-IsBalanced x state_text graph r balanced in
      let after = run-Implements state_text graph p r implements in
      let closed_off = reached-IsClosedOff ns p about closed in
      let q = reached ns p in
      length-le (still_open q.atom_open (phases us)) t.listener.atom_spans balance.keys
        (λ j unknown. none_of_absent _ (
          after.atoms j ∙ (elim (Bool-cases (q.atom_open j)) [
            | inl is_open ↦
                closed_off j (known_key-still_open q.atom_open j (phases us) unknown is_open)
            | inr is_closed ↦ is_closed
          ])))
