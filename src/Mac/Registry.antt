-- ===== src/Mac/Registry.antt =====
-- Which service is found under an id.
use uwb_core.Common.{
  ℕ, ◌≡◌, ◌≢◌, refl, sym, ap, ◌∙◌, true, false, List, [], ◌∷◌, Option, none, some, ◌==◌, inl, inr,
  Bool-cases, ==_iff, ==_refl, ne→==,
}
use uwb_core.Mac.{Interface, insert_last, append_interface, remove_interface, get_interface}

-- the first of two results
abbrev pub first_of : Option Interface → Option Interface → Option Interface
first_of none o = o
first_of (some c) o = some c

get_interface-insert_last :
    (i : ℕ) (c : Interface) (xs : List Interface)
    → get_interface i (insert_last c xs) ≡ first_of (get_interface i xs) (get_interface i (c ∷ []))
unfolding insert_last get_interface
get_interface-insert_last i c [] = refl
get_interface-insert_last i c (x ∷ xs) = elim (Bool-cases (x.id == i)) [
  | inl here ↦ rw (here, get_interface) refl
  | inr other ↦ rw (other, get_interface) (get_interface-insert_last i c xs)
]

-- The service registered first under an id is the one that is found; a later one only if there is
-- none.
pub get_interface-append_interface :
    (i : ℕ) (c : Interface) (xs : List Interface)
    → get_interface i (append_interface c xs)
      ≡ first_of
          (get_interface i xs)
          (elim (c.id == i) [ true ↦ some (record c { initialized = true }) | false ↦ none ])
unfolding append_interface get_interface
get_interface-append_interface i c xs =
    get_interface-insert_last i (record c { initialized = true }) xs

-- A service that was appended under a new id is removed without a trace.
pub remove_interface-append_interface :
    (c : Interface) (xs : List Interface)
    → get_interface c.id xs ≡ none
    → remove_interface c.id (append_interface c xs) ≡ xs
unfolding append_interface get_interface remove_interface insert_last
remove_interface-append_interface c [] fresh = rw (==_refl c.id, remove_interface) refl
remove_interface-append_interface c (x ∷ xs) fresh = elim (Bool-cases (x.id == c.id)) [
  | inl here ↦ absurd (cc (rw (here, get_interface) at fresh))
  | inr other ↦
      rw (other, remove_interface)
        (ap (λ r. x ∷ r)
          (remove_interface-append_interface c xs (rw (other, get_interface) at fresh)))
]

-- The removal of a service leaves what is found under all other ids.
pub get_interface-remove_interface :
    (i j : ℕ) (xs : List Interface)
    → i ≢ j
    → get_interface j (remove_interface i xs) ≡ get_interface j xs
unfolding get_interface remove_interface
get_interface-remove_interface i j [] ne = refl
get_interface-remove_interface i j (x ∷ xs) ne = elim (Bool-cases (x.id == i)) [
  | inl here ↦
      rw (here, remove_interface)
        (sym (rw (ne→== x.id j (λ e. ne (sym ((==_iff x.id i).0 here) ∙ e)), get_interface) refl))
  | inr other ↦
      rw (other, remove_interface)
        (elim (Bool-cases (x.id == j)) [
          | inl this ↦ rw (this, get_interface) refl
          | inr that ↦ rw (that, get_interface) (get_interface-remove_interface i j xs ne)
        ])
]
