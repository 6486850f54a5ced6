-- ===== src/Memory.antt =====
-- ppc/misc.S, TW_CopyBytes and TW_FillBytes, on arrays of bytes that do not overlap.
use libtwilight.Prelude.{
  ℕ, zero, suc, ◌<◌, ◌≡◌, ◌≢◌, refl, ap, List, [], ◌∷◌, arith, length, get_or, set, take, drop,
  length-set,
}

-- Bytes stored one after the other from index `pos` on.
unfoldable pub store_at : List ℕ → ℕ → List ℕ → List ℕ
store_at dst pos [] = dst
store_at dst pos (x ∷ xs) = store_at (set dst pos x) (suc pos) xs

-- `TW_CopyBytes(&dst[pos], src, len)`.
unfoldable pub copy_bytes : List ℕ → ℕ → List ℕ → ℕ → List ℕ
unfolding store_at
copy_bytes dst pos src len = store_at dst pos (take len src)

-- The `len` bytes from index `pos` on, as `TW_CopyBytes(obj, &src[pos], len)` reads them.
abbrev pub slice : List ℕ → ℕ → ℕ → List ℕ
slice src pos len = take len (drop pos src)

pub length-store_at :
    (dst : List ℕ) (pos : ℕ) (xs : List ℕ) → length (store_at dst pos xs) ≡ length dst
unfolding store_at
length-store_at dst pos [] = refl
length-store_at dst pos (x ∷ xs) =
    omega (arith, length-store_at (set dst pos x) (suc pos) xs, length-set dst pos x)

pub get_or-set_self : (xs : List ℕ) (i : ℕ) (v d : ℕ) → i < length xs → get_or (set xs i v) i d ≡ v
get_or-set_self [] i v d h = absurd (omega arith)
get_or-set_self (x ∷ xs) zero v d h = refl
get_or-set_self (x ∷ xs) (suc i) v d h = get_or-set_self xs i v d (omega arith)

pub get_or-set_ne :
    (xs : List ℕ) (i j : ℕ) (v d : ℕ) → i ≢ j → get_or (set xs i v) j d ≡ get_or xs j d
get_or-set_ne [] i j v d h = refl
get_or-set_ne (x ∷ xs) zero zero v d h = absurd (h refl)
get_or-set_ne (x ∷ xs) zero (suc j) v d h = refl
get_or-set_ne (x ∷ xs) (suc i) zero v d h = refl
get_or-set_ne (x ∷ xs) (suc i) (suc j) v d h = get_or-set_ne xs i j v d (λ e. h (ap suc e))
