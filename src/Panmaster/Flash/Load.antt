-- ===== src/Panmaster/Flash/Load.antt =====
-- What the load of the index makes of the stored records.
use uwb_core.Common.{
  ℕ, ◌<◌, ◌≡◌, ◌≢◌, ◌↔◌, refl, sym, ap, ◌∙◌, true, Option, none, some, List, [], ◌∷◌, arith, ◌==◌,
  if◌then◌else◌, length, length-set, get_or-set_self, get_or-set_ne, set, any, Bool-cases, inl, inr,
  Option-cases, ne→==, ==_refl,
}
use mathlib.Core.Bool.{false≢true}
use mathlib.Core.Option.{some-injective}
use mathlib.Core.Path.{subst}
use native.Mathlib.Decide.{ℕ_discrete, dec_lt}
use uwb_core.Panmaster.Types.{Node, NodeIdx, zero_entry}
use uwb_core.Panmaster.Index.{entry}
use uwb_core.Panmaster.Flash.{node_idx_load_cb, load_idx, loaded}

-- the newest record with this index
abbrev pub newest_at : ℕ → List Node → Option Node
newest_at i [] = none
newest_at i (n ∷ ns) =
    let older = (if i == n.index then some n else none) in
    elim (newest_at i ns) [ none ↦ older | some n' ↦ some n' ]

-- the entry shows the record
pub record Shows (n : Node) (e : NodeIdx) : Type 0 where
  pub same_addr : e.addr ≡ n.addr
  pub same_euid : e.euid ≡ n.euid
  pub same_role : e.role ≡ n.role
  pub same_perm : e.has_perm_slot ≡ n.has_perm_slot
  pub same_slot : n.has_perm_slot ≡ true → e.slot_id ≡ n.slot_id

load_cb-inside :
    (t : List NodeIdx) (n : Node)
    → n.index < length t
    → node_idx_load_cb t n ≡ some (set t n.index (loaded n (entry t n.index)))
unfolding node_idx_load_cb
load_cb-inside t n lt = ground arith

load_cb-beyond : (t : List NodeIdx) (n : Node) → length t < n.index → node_idx_load_cb t n ≡ some t
unfolding node_idx_load_cb
load_cb-beyond t n lt = ground arith

load_cb-at_end : (t : List NodeIdx) (n : Node) → n.index ≡ length t → node_idx_load_cb t n ≡ none
unfolding node_idx_load_cb
load_cb-at_end t n e = ground arith

load_idx-eq_none_at :
    (size : ℕ) (t : List NodeIdx) (ns : List Node)
    → length t ≡ size
    → (load_idx t ns ≡ none) ↔ (any (λ n. n.index == size) ns ≡ true)
unfolding load_idx
load_idx-eq_none_at size t [] same = ((λ h. cc), (λ h. cc))
load_idx-eq_none_at size t (n ∷ ns) same = elim (dec_lt n.index size) [
  | yes lt ↦
      rw (load_cb-inside t n (omega arith), load_idx)
        (rw (ne→== n.index size (omega arith)) (
          load_idx-eq_none_at size (set t n.index (loaded n (entry t n.index))) ns
            (length-set t n.index _ ∙ same)))
  | no ge ↦ elim (ℕ_discrete n.index size) [
    | yes e ↦
        rw (load_cb-at_end t n (e ∙ sym same), load_idx)
          (rw (e, ==_refl size) ((λ _. refl), (λ _. refl)))
    | no ne ↦
        rw (load_cb-beyond t n (omega arith), load_idx)
          (rw (ne→== n.index size ne) (load_idx-eq_none_at size t ns same))
  ]
]

-- The load writes behind the array exactly if some record has the number of entries as its index.
pub load_idx-eq_none :
    (t : List NodeIdx) (ns : List Node)
    → (load_idx t ns ≡ none) ↔ (any (λ n. n.index == length t) ns ≡ true)
load_idx-eq_none t ns = load_idx-eq_none_at (length t) t ns refl

loaded-Shows : (n : Node) (e : NodeIdx) → Shows n (loaded n e)
loaded-Shows n e = elim (Bool-cases n.has_perm_slot) [
  | inl perm ↦ rw perm (record {
    same_addr = refl;
    same_euid = refl;
    same_role = refl;
    same_perm = refl;
    same_slot = λ _. refl;
  })
  | inr leased ↦ rw leased (record {
    same_addr = refl;
    same_euid = refl;
    same_role = refl;
    same_perm = refl;
    same_slot = λ h. absurd (false≢true h);
  })
]

-- One more record in front, which made `t'` of `t`.
one_more :
    (t t' u : List NodeIdx) (n : Node) (ns : List Node) (i : ℕ)
    → (i ≡ n.index → Shows n (entry t' i))
    → (i ≢ n.index → entry t' i ≡ entry t i)
    → ((m : Node) → newest_at i ns ≡ some m → Shows m (entry u i))
      × (newest_at i ns ≡ none → entry u i ≡ entry t' i)
    → ((m : Node) → newest_at i (n ∷ ns) ≡ some m → Shows m (entry u i))
      × (newest_at i (n ∷ ns) ≡ none → entry u i ≡ entry t i)
one_more t t' u n ns i here there (newer, untouched) = elim (Option-cases (newest_at i ns)) [
  | inr (m, e) ↦ rw e ((λ m' h. newer m' (e ∙ h)), (λ h. absurd (cc h)))
  | inl e ↦ elim (ℕ_discrete i n.index) [
    | yes at ↦
        let test : (i == n.index) ≡ true = ground arith in
        rw (e, test)
          (
            (λ m h.
                subst (λ (x : Node). Shows x (entry u i)) (some-injective n m h)
                  (rw (untouched e) (here at))),
            (λ h. absurd (cc h)),
          )
    | no ne ↦ rw (e, ne→== i n.index ne) ((λ m h. absurd (cc h)), (λ _. untouched e ∙ there ne))
  ]
]

-- Where a load went well, each entry with a record shows its newest one, and each entry without one
-- is as it was.
pub load_idx-Shows :
    (t u : List NodeIdx) (ns : List Node) (i : ℕ)
    → load_idx t ns ≡ some u
    → i < length t
    → ((n : Node) → newest_at i ns ≡ some n → Shows n (entry u i))
      × (newest_at i ns ≡ none → entry u i ≡ entry t i)
unfolding load_idx
load_idx-Shows t u [] i e lt =
    ((λ n h. absurd (ground arith)), (λ _. ap (λ v. entry v i) (sym (some-injective _ _ e))))
load_idx-Shows t u (n ∷ ns) i e lt = elim (dec_lt n.index (length t)) [
  | yes inside ↦
      let t' = set t n.index (loaded n (entry t n.index)) in
      let step : load_idx t (n ∷ ns) ≡ load_idx t' ns = rw (load_cb-inside t n inside, load_idx) in
      one_more t t' u n ns i
        (λ at.
          rw at
            (rw (get_or-set_self t n.index _ zero_entry inside) (loaded-Shows n (entry t n.index))))
        (λ ne. get_or-set_ne t n.index i _ zero_entry (λ s. ne (sym s)))
        (load_idx-Shows t' u ns i (sym step ∙ e)
          (omega (arith, length-set t n.index (loaded n (entry t n.index)))))
  | no outside ↦ elim (ℕ_discrete n.index (length t)) [
    | yes at_end ↦
        let step : load_idx t (n ∷ ns) ≡ none = rw (load_cb-at_end t n at_end, load_idx) in
        absurd (cc (sym step ∙ e))
    | no ne ↦
        let step : load_idx t (n ∷ ns) ≡ load_idx t ns =
          rw (load_cb-beyond t n (omega arith), load_idx) in
        one_more t t u n ns i (λ at. absurd (omega arith)) (λ _. refl)
          (load_idx-Shows t u ns i (sym step ∙ e) lt)
  ]
]
