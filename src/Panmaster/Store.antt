-- ===== src/Panmaster/Store.antt =====
-- The storage behind panmaster.c, which panmaster_fcb.c and panmaster_file.c implement: a log of
-- node records, read from the oldest to the newest.
use uwb_core.Common.{
  ℕ, ◌≡◌, ◌≢◌, refl, ◌∙◌, arith, Bool, true, false, not, ◌&&◌, ◌||◌, Option, none, some, List, [],
  ◌∷◌, ◌++◌, ◌==◌, if◌then◌else◌,
}
use uwb_core.Panmaster.Types.{Node, node_default}

-- `load` gives the records in the order in which the load callback sees them; `save` returns
-- whether it succeeded.
pub record Store : Type 1 where
  pub Log : Type 0
  pub load : Log → List Node
  pub save : Log → Node → Bool × Log
  pub clear : Log → Log

-- The newest record of an id.
unfoldable pub latest : ℕ → List Node → Option Node
latest euid [] = none
latest euid (n ∷ ns) =
    let older = (if euid == n.euid then some n else none) in
    elim (latest euid ns) [ none ↦ older | some n' ↦ some n' ]

-- A record behind all others is the newest of its id.
pub latest-append :
    (l : List Node) (n : Node) (euid : ℕ)
    → latest euid (l ++ (n ∷ [])) ≡ (if euid == n.euid then some n else latest euid l)
unfolding latest
latest-append [] n euid = ground arith
latest-append (m ∷ l) n euid = ground (arith, latest-append l n euid)

-- `find_node_load_cb`: the record matches, so it replaces what was found before.
unfoldable pub find_node_load_cb : Node → Option Node → Node → Option Node
find_node_load_cb f found n =
    if (not (f.index == 0) && (f.index == n.index))
      || (not (f.addr == 0xffff) && (f.addr == n.addr))
      || (not (f.euid == 0) && (f.euid == n.euid))
    then some n
    else found

unfoldable pub find_node_from : Node → Option Node → List Node → Option Node
find_node_from f found [] = found
find_node_from f found (n ∷ ns) = find_node_from f (find_node_load_cb f found n) ns

-- `panmaster_find_node_general`; `none` is `is_found` of 0.
unfoldable pub find_node : Node → List Node → Option Node
find_node f ns = find_node_from f none ns

-- The search that panmaster.c makes, by id alone.
abbrev pub by_euid : ℕ → Node
by_euid euid = record node_default { euid = euid }

or_else : Option Node → Option Node → Option Node
or_else none o = o
or_else (some n) o = some n

load_cb-by_euid :
    (euid : ℕ) (found : Option Node) (n : Node)
    → (euid == 0) ≡ false
    → find_node_load_cb (by_euid euid) found n ≡ (if euid == n.euid then some n else found)
unfolding find_node_load_cb
load_cb-by_euid euid found n nz = rw nz

join :
    (b : Bool) (n : Node) (found newer : Option Node)
    → or_else newer (if b then some n else found)
      ≡ or_else (elim newer [ none ↦ (if b then some n else none) | some n' ↦ some n' ]) found
unfolding or_else
join b n found (some n') = refl
join true n found none = refl
join false n found none = refl

find_node_from-latest :
    (euid : ℕ) (found : Option Node) (ns : List Node)
    → (euid == 0) ≡ false
    → find_node_from (by_euid euid) found ns ≡ or_else (latest euid ns) found
unfolding find_node_from latest or_else
find_node_from-latest euid found [] nz = refl
find_node_from-latest euid found (n ∷ ns) nz = rw (load_cb-by_euid euid found n nz) (
    find_node_from-latest euid (if euid == n.euid then some n else found) ns nz
    ∙ join (euid == n.euid) n found (latest euid ns))

or_else-none : (o : Option Node) → or_else o none ≡ o
unfolding or_else
or_else-none none = refl
or_else-none (some n) = refl

-- A search by an id that is not 0 finds the newest record of the id.
pub find_node-latest :
    (euid : ℕ) (ns : List Node) → euid ≢ 0 → find_node (by_euid euid) ns ≡ latest euid ns
unfolding find_node
find_node-latest euid ns nz =
    find_node_from-latest euid none ns (ground arith) ∙ or_else-none (latest euid ns)
