-- ===== src/Panmaster/Compress/Keeps.antt =====
-- Which record of an id a compression keeps.
use uwb_core.Common.{
  ℕ, ◌≡◌, refl, sym, ap, ◌∙◌, Bool, true, false, Option, none, some, List, [], ◌∷◌, ◌++◌, any, map,
  ◌==◌, ==_iff, if◌then◌else◌, inl, inr, Bool-cases, Option-cases, ◌||◌,
}
use uwb_core.Panmaster.Types.{Node}
use uwb_core.Panmaster.Store.{latest, latest-append}
use uwb_core.Panmaster.Compress.{
  Fcb, FcbLaws, HasRoom, full, read_over, has_newer, copy_from, compress,
}

-- the first record of an id
unfoldable pub earliest : ℕ → List Node → Option Node
earliest euid [] = none
earliest euid (n ∷ ns) = if euid == n.euid then some n else earliest euid ns

abbrev pub first_of : Option Node → Option Node → Option Node
first_of none o = o
first_of (some n) o = some n

-- Where the newer sectors have no record of the id, nothing is the newest one.
latest-any :
    (euid : ℕ) (ns : List Node) → any (λ n. euid == n.euid) ns ≡ false → latest euid ns ≡ none
unfolding latest
latest-any euid [] h = refl
latest-any euid (n ∷ ns) h = elim (Bool-cases (euid == n.euid)) [
  | inl here ↦ absurd (cc (rw here at h))
  | inr other ↦ rw (latest-any euid ns (rw other at h), other) refl
]

latest-has :
    (euid : ℕ) (ns : List Node) (o : Option Node)
    → any (λ n. euid == n.euid) ns ≡ true
    → first_of (latest euid ns) o ≡ latest euid ns
unfolding latest
latest-has euid [] o h = absurd (cc h)
latest-has euid (n ∷ ns) o h = elim (Option-cases (latest euid ns)) [
  | inr (m, e) ↦ rw e refl
  | inl e ↦ elim (Bool-cases (euid == n.euid)) [
    | inl here ↦ rw (e, here) refl
    | inr other ↦ absurd (cc (latest-has euid ns (some n) (rw other at h), e))
  ]
]

has_newer-full :
    (euid : ℕ) (ns : List Node) → has_newer euid (map full ns) ≡ any (λ n. euid == n.euid) ns
unfolding has_newer
has_newer-full euid [] = refl
has_newer-full euid (n ∷ ns) = ap (λ b. (euid == n.euid) || b) (has_newer-full euid ns)

map-append : (l : List Node) (n : Node) → map full l ++ (full n ∷ []) ≡ map full (l ++ (n ∷ []))
map-append [] n = refl
map-append (m ∷ l) n = ap (λ es. full m ∷ es) (map-append l n)

-- One record of the oldest sector, copied or not.
one_copied :
    (euid : ℕ) (n : Node) (ms : List Node) (o : Option Node) (b : Bool)
    → any (λ m. n.euid == m.euid) ms ≡ b
    → first_of (latest euid (if b then ms else ms ++ (n ∷ []))) o
      ≡ first_of (latest euid ms) (if euid == n.euid then some n else o)
one_copied euid n ms o true has = elim (Bool-cases (euid == n.euid)) [
  | inl here ↦
      let e : euid ≡ n.euid = (==_iff euid n.euid).0 here in
      let known : any (λ m. euid == m.euid) ms ≡ true = rw e has in
      rw here (latest-has euid ms o known ∙ sym (latest-has euid ms (some n) known))
  | inr other ↦ rw other refl
]
one_copied euid n ms o false lacks = elim (Bool-cases (euid == n.euid)) [
  | inl here ↦
      let e : euid ≡ n.euid = (==_iff euid n.euid).0 here in
      let nothing : latest euid ms ≡ none = latest-any euid ms (rw e lacks) in
      rw (latest-append ms n euid, here, nothing) refl
  | inr other ↦ rw (latest-append ms n euid, other) refl
]

first_of-none : (o : Option Node) → first_of o none ≡ o
first_of-none none = refl
first_of-none (some n) = refl

module _ (fcb : Fcb) (laws : FcbLaws fcb) (room : HasRoom fcb) where
  copied_one :
      (n : Node) (ms : List Node) (f : fcb.State)
      → fcb.newer f ≡ map full ms
      → fcb.newer (if has_newer n.euid (fcb.newer f) then f else (fcb.append f n).1)
        ≡ map full (if any (λ m. n.euid == m.euid) ms then ms else ms ++ (n ∷ []))
  copied_one n ms f is = elim (Bool-cases (any (λ m. n.euid == m.euid) ms)) [
    | inl known ↦ rw (test ∙ known, known) is
    | inr fresh ↦
        rw (test ∙ fresh, fresh)
          (laws.append_newer f n (room f n) ∙ ap (λ es. es ++ (full n ∷ [])) is ∙ map-append ms n)
  ]
    where
      test : has_newer n.euid (fcb.newer f) ≡ any (λ m. n.euid == m.euid) ms
      test = ap (has_newer n.euid) is ∙ has_newer-full n.euid ms

  -- The records that are outside the oldest sector after the copies.
  copied :
      (ns ms : List Node) (buf : Node) (f : fcb.State)
      → fcb.newer f ≡ map full ms
      → (ms' : List Node) × (fcb.newer (copy_from fcb (map full ns) buf f) ≡ map full ms')
        × ((euid : ℕ) → latest euid ms' ≡ first_of (latest euid ms) (earliest euid ns))
  unfolding copy_from earliest read_over
  copied [] ms buf f is = (ms, is, λ euid. sym (first_of-none (latest euid ms)))
  copied (n ∷ ns) ms buf f is =
      let ms₁ : List Node = if any (λ m. n.euid == m.euid) ms then ms else ms ++ (n ∷ []) in
      let rest = copied ns ms₁ n _ (copied_one n ms f is) in
      (rest.0, rest.1, λ euid. rest.2 euid ∙ one_copied euid n ms (earliest euid ns) _ refl)

  -- Where the buffer holds whole nodes that can be read and appends go well, a compression that gets
  -- the scratch sector leaves, for each id, the newest record that the newer sectors have; but for an id that only the
  -- oldest sector has, it leaves the first of its records there, not the newest one.
  pub compress-latest :
      (ns ms : List Node) (buf : Node) (f g : fcb.State)
      → fcb.append_to_scratch f ≡ some g
      → fcb.oldest f ≡ map full ns
      → fcb.newer f ≡ map full ms
      → let h = compress fcb buf f in
        (ms' : List Node) × (fcb.oldest h ++ fcb.newer h ≡ map full ms')
        × ((euid : ℕ) → latest euid ms' ≡ first_of (latest euid ms) (earliest euid ns))
  unfolding compress
  compress-latest ns ms buf f g got old new =
      rw (got, compress)
        (rest.0, (laws.rotate_all (copy_from fcb (fcb.oldest g) buf g) ∙ same ∙ rest.1), rest.2)
    where
      rest :
          (ms' : List Node) × (fcb.newer (copy_from fcb (map full ns) buf g) ≡ map full ms')
          × ((euid : ℕ) → latest euid ms' ≡ first_of (latest euid ms) (earliest euid ns))
      rest = copied ns ms buf g (laws.scratch_newer f g got ∙ new)

      same :
          fcb.newer (copy_from fcb (fcb.oldest g) buf g)
          ≡ fcb.newer (copy_from fcb (map full ns) buf g)
      same = ap (λ es. fcb.newer (copy_from fcb es buf g)) (laws.scratch_oldest f g got ∙ old)
