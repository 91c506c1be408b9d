-- ===== src/Graph/Builder/Ranges.antt =====
-- Maps whose keys are consecutive numbers, as the handles of a graph are.
use mathlib.Core.Path.{ap₂}
use zerochain.Prelude.{
  ℕ, zero, suc, ◌+◌, ◌<◌, ◌≡◌, refl, sym, ◌∙◌, ap, false, some, [], ◌∷◌, ◌++◌, arith, nat_ord,
  nat_eq_instance,
}
use zerochain.OrdMap
use zerochain.OrdMap.{OrdMap}
use zerochain.OrdMap.Sorted.{IsSorted, AllAbove}
use zerochain.HashMap.{contains}
use zerochain.Graph.WellFormed.{range_from, range_from-snoc}
use zerochain.Graph.Order.Spec.{Distinct}

pub insert_last {ℓ} :
    {V : Type ℓ} (lo n k : ℕ) (v : V) (m : OrdMap ℕ V)
    → k ≡ lo + n
    → OrdMap.keys m ≡ range_from lo n
    → OrdMap.insert k v m ≡ m ++ (k, v) ∷ []
insert_last lo zero k v [] e h = refl
insert_last lo zero k v ((j, w) ∷ m) e h = absurd cc
insert_last lo (suc n) k v [] e h = absurd cc
insert_last lo (suc n) k v ((j, w) ∷ m) e h =
    ground (arith, insert_last (suc lo) n k v m (omega arith))

-- The entry behind those with smaller handles is the one that is changed.
pub update_last {ℓ} :
    {V : Type ℓ} (lo n k : ℕ) (f : V → V) (v : V) (m rest : OrdMap ℕ V)
    → k ≡ lo + n
    → OrdMap.keys m ≡ range_from lo n
    → OrdMap.update k f (m ++ (k, v) ∷ rest) ≡ m ++ (k, f v) ∷ rest
update_last lo zero k f v [] rest e h = ground arith
update_last lo zero k f v ((j, w) ∷ m) rest e h = absurd cc
update_last lo (suc n) k f v [] rest e h = absurd cc
update_last lo (suc n) k f v ((j, w) ∷ m) rest e h =
    ground (arith, update_last (suc lo) n k f v m rest (omega arith))

pub keys-append {ℓ} :
    {V : Type ℓ} (m r : OrdMap ℕ V) → OrdMap.keys (m ++ r) ≡ OrdMap.keys m ++ OrdMap.keys r
keys-append [] r = refl
keys-append (e ∷ m) r = ap (λ l. e.0 ∷ l) (keys-append m r)

pub keys-snoc {ℓ} :
    {V : Type ℓ} (m : OrdMap ℕ V) (n : ℕ) (v : V)
    → OrdMap.keys m ≡ range_from 0 n
    → OrdMap.keys (m ++ (n, v) ∷ []) ≡ range_from 0 (suc n)
keys-snoc m n v h =
    keys-append m ((n, v) ∷ [])
    ∙ ap (λ l. l ++ n ∷ []) h
    ∙ sym (range_from-snoc 0 n ∙ ap (λ k. range_from 0 n ++ k ∷ []) (omega arith))

pub get_last {ℓ} :
    {V : Type ℓ} (lo n k : ℕ) (v : V) (m rest : OrdMap ℕ V)
    → k ≡ lo + n
    → OrdMap.keys m ≡ range_from lo n
    → OrdMap.get k (m ++ (k, v) ∷ rest) ≡ some v
get_last lo zero k v [] rest e h = ground arith
get_last lo zero k v ((j, w) ∷ m) rest e h = absurd cc
get_last lo (suc n) k v [] rest e h = absurd cc
get_last lo (suc n) k v ((j, w) ∷ m) rest e h =
    ground (arith, get_last (suc lo) n k v m rest (omega arith))

pub range_from-above : (x lo n : ℕ) → x < lo → contains x (range_from lo n) ≡ false
range_from-above x lo zero h = refl
range_from-above x lo (suc n) h = ground (arith, range_from-above x (suc lo) n)

pub range_from-Distinct : (lo n : ℕ) → Distinct (range_from lo n)
range_from-Distinct lo zero = tt
range_from-Distinct lo (suc n) =
    (range_from-above lo (suc lo) n (omega arith), range_from-Distinct (suc lo) n)

pub range_from-append :
    (lo n hi k : ℕ) → hi ≡ lo + n → range_from lo n ++ range_from hi k ≡ range_from lo (n + k)
range_from-append lo zero hi k e = ap₂ range_from (omega arith) (omega arith)
range_from-append lo (suc n) hi k e =
    ap (λ l. lo ∷ l) (range_from-append (suc lo) n hi k (omega arith))
    ∙ ap (range_from lo) {x = suc (n + k)} (omega arith)

range_above {ℓ} :
    {V : Type ℓ} (j lo n : ℕ) (m : OrdMap ℕ V)
    → j < lo
    → OrdMap.keys m ≡ range_from lo n
    → AllAbove j m
range_above j lo zero [] l h = tt
range_above j lo zero (e ∷ m) l h = absurd cc
range_above j lo (suc n) [] l h = absurd cc
range_above j lo (suc n) ((i, w) ∷ m) l h =
    (ground arith, range_above j (suc lo) n m (omega arith) (ground arith))

pub range-IsSorted {ℓ} :
    {V : Type ℓ} (lo n : ℕ) (m : OrdMap ℕ V) → OrdMap.keys m ≡ range_from lo n → IsSorted m
range-IsSorted lo zero [] h = tt
range-IsSorted lo zero (e ∷ m) h = absurd cc
range-IsSorted lo (suc n) [] h = absurd cc
range-IsSorted lo (suc n) ((j, v) ∷ m) h = (
  range_above j (suc lo) n m (ground arith) (ground arith),
  range-IsSorted (suc lo) n m (ground arith),
)
