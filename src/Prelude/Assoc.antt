-- ===== src/Prelude/Assoc.antt =====
-- std::unordered_map and QHash as association lists. An assignment to a key that is there stays in
-- its place, and a new key goes to the end; no code depends on the order.
use torrent_link.Prelude.Tests.{if◌then◌else◌, ◌==◌}
use torrent_link.Prelude.Keys.{Key}
use Prim.Native.Nat.{ℕ, ◌≤◌, suc}
use mathlib.Core.Path.{◌≡◌, refl}
use mathlib.Core.List.{List, [], ◌∷◌}
use mathlib.Core.Option.{Option, none, some}
use native.Mathlib.Omega.{arith}

abbrev pub Assoc {ℓ κ} : Type ℓ → Type κ → Type (ℓ ⊔ κ)
Assoc K V = List (K × V)

module _ {ℓ κ} {K : Type ℓ} {V : Type κ} ⦃k : Key K⦄ where
  unfoldable pub lookup : K → Assoc K V → Option V
  lookup i [] = none
  lookup i ((j, v) ∷ m) = if k.same j i then some v else lookup i m

  unfoldable pub put : K → V → Assoc K V → Assoc K V
  put i v [] = (i, v) ∷ []
  put i v ((j, w) ∷ m) = if k.same j i then (j, v) ∷ m else (j, w) ∷ put i v m

  unfoldable pub erase : K → Assoc K V → Assoc K V
  erase i [] = []
  erase i ((j, w) ∷ m) = if k.same j i then erase i m else (j, w) ∷ erase i m

  pub lookup-put :
      (i j : K) (v : V) (m : Assoc K V)
      → lookup j (put i v m) ≡ (if k.same i j then some v else lookup j m)
  unfolding lookup put
  lookup-put i j v [] = refl
  lookup-put i j v ((a, w) ∷ m) =
      ground (arith, k.same_iff a i, k.same_iff a j, k.same_iff i j, lookup-put i j v m)

  pub lookup-erase :
      (i j : K) (m : Assoc K V) → lookup j (erase i m) ≡ (if k.same i j then none else lookup j m)
  unfolding lookup erase
  lookup-erase i j [] = ground arith
  lookup-erase i j ((a, w) ∷ m) =
      ground (arith, k.same_iff a i, k.same_iff a j, k.same_iff i j, lookup-erase i j m)

  -- How many entries stand under a key: at most one in a map.
  unfoldable pub entries : K → Assoc K V → ℕ
  entries i [] = 0
  entries i ((j, w) ∷ m) = if k.same j i then suc (entries i m) else entries i m

  pub entries-put :
      (i j : K) (v : V) (m : Assoc K V)
      → entries j (put i v m)
        ≡ (if k.same i j then (if entries j m == 0 then 1 else entries j m) else entries j m)
  unfolding entries put
  entries-put i j v [] = ground arith
  entries-put i j v ((a, w) ∷ m) =
      ground (arith, k.same_iff a i, k.same_iff a j, k.same_iff i j, entries-put i j v m)

  pub entries-erase_le : (i j : K) (m : Assoc K V) → entries j (erase i m) ≤ entries j m
  unfolding entries erase
  entries-erase_le i j [] = omega arith
  entries-erase_le i j ((a, w) ∷ m) = ground (arith, entries-erase_le i j m)
