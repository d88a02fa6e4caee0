-- ===== src/Prelude/ByteText.antt =====
-- Byte strings (QByteArray), as lists of numbers below 256.
use Prim.Native.Nat.{ℕ, zero, suc, ◌<◌}
use Prim.Native.Char.{code}
use Prim.Native.String.{String}
use mathlib.Core.Path.{◌≡◌}
use mathlib.Core.Bool.{Bool, true, false, ◌&&◌}
use mathlib.Core.List.{List, [], ◌∷◌}
use mathlib.Core.Option.{Option, none, some}
use native.Mathlib.Omega.{arith}
use torrent_link.Prelude.Tests.{◌==◌, if◌then◌else◌}
use torrent_link.Prelude.Lists.{length}

abbrev pub Bytes : Type 0
Bytes = List ℕ

-- A literal.
abbrev pub bytes : String → Bytes
bytes String.[] = []
bytes (String.◌∷◌ c s) = code c ∷ bytes s

-- QByteArray::startsWith
unfoldable pub starts_with : Bytes → Bytes → Bool
starts_with [] s = true
starts_with (p ∷ ps) [] = false
starts_with (p ∷ ps) (c ∷ s) = p == c && starts_with ps s

-- QByteArray::indexOf for a pattern that is not empty; `none` is -1.
unfoldable pub index_of : Bytes → Bytes → Option ℕ
unfolding starts_with
index_of p [] = none
index_of p (c ∷ s) =
    let rest = index_of p s in
    if starts_with p (c ∷ s) then some 0 else (elim rest [ none ↦ none | some i ↦ some (suc i) ])

pub index_of-lt-length : (p s : Bytes) (i : ℕ) → index_of p s ≡ some i → i < length s
unfolding index_of
index_of-lt-length p [] i h = ground arith
index_of-lt-length p (c ∷ s) zero h = omega arith
index_of-lt-length p (c ∷ s) (suc i) h = ground (arith, index_of-lt-length p s i)
