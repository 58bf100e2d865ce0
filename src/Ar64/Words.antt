-- ===== src/Ar64/Words.antt =====
-- Lists of bits, highest first, and the 32-bit words and bytes that carry them.
use dach.Base.{
  ℕ, ◌≤◌, zero, suc, ◌+◌, ◌*◌, ◌^◌, ◌<◌, ◌≡◌, refl, arith, List, [], ◌∷◌, ◌++◌, length,
  length-append, All, replicate, length-replicate,
}
use mathlib.Core.List.{append_assoc}
use native.Mathlib.Nat.{pow-suc, pow-le-pow_right}
use dach.Ar64.State.{word_bytes, bytes_word}

abbrev pub IsBits : List ℕ → Type 0
IsBits = All (λ b. b < 2)

-- The number that a list of bits denotes.
unfoldable pub val : List ℕ → ℕ
val [] = 0
val (b ∷ bs) = b * 2 ^ length bs + val bs

pub pow_add : (a b : ℕ) → 2 ^ (a + b) ≡ 2 ^ a * 2 ^ b
pow_add zero b = let e : zero + b ≡ b = omega arith in rw e (omega arith)
pow_add (suc a) b =
    let e : suc a + b ≡ suc (a + b) = omega arith in
    rw (e, pow-suc 2 (a + b), pow-suc 2 a, pow_add a b) (omega arith)

pub val-lt : (bs : List ℕ) → IsBits bs → val bs < 2 ^ length bs
unfolding val
val-lt [] h = omega arith
val-lt (b ∷ bs) (hb, hbs) = rw (pow-suc 2 (length bs)) (grind (arith, val-lt bs hbs))

pub val-append : (xs ys : List ℕ) → val (xs ++ ys) ≡ val xs * 2 ^ length ys + val ys
unfolding val
val-append [] ys = omega arith
val-append (x ∷ xs) ys =
    rw (length-append xs ys, pow_add (length xs) (length ys), val-append xs ys) (omega arith)

pub IsBits-append : (xs ys : List ℕ) → IsBits xs → IsBits ys → IsBits (xs ++ ys)
IsBits-append [] ys h k = k
IsBits-append (x ∷ xs) ys (hx, hxs) k = (hx, IsBits-append xs ys hxs k)

pub IsBits-replicate : (n b : ℕ) → b < 2 → IsBits (replicate n b)
IsBits-replicate zero b h = tt
IsBits-replicate (suc n) b h = (h, IsBits-replicate n b h)

pub val-replicate_zero : (n : ℕ) → val (replicate n 0) ≡ 0
unfolding val
val-replicate_zero zero = refl
val-replicate_zero (suc n) = omega (arith, val-replicate_zero n)

pub val-replicate_one : (n : ℕ) → val (replicate n 1) + 1 ≡ 2 ^ n
unfolding val
val-replicate_one zero = refl
val-replicate_one (suc n) =
    rw (length-replicate {A = ℕ} n 1, pow-suc 2 n) (omega (arith, val-replicate_one n))

-- A full word of bits.
pub record IsWord (c : List ℕ) : Type 0 where
  pub full : length c ≡ 32
  pub bits : IsBits c

unfoldable pub concat : List (List ℕ) → List ℕ
concat [] = []
concat (c ∷ cs) = c ++ concat cs

-- The bytes of a sequence of words.
unfoldable pub words : List (List ℕ) → List ℕ
words [] = []
words (c ∷ cs) = word_bytes (val c) ++ words cs

pub concat-append : (cs ds : List (List ℕ)) → concat (cs ++ ds) ≡ concat cs ++ concat ds
unfolding concat
concat-append [] ds = refl
concat-append (c ∷ cs) ds = rw (concat-append cs ds, append_assoc)

pub words-append : (cs ds : List (List ℕ)) → words (cs ++ ds) ≡ words cs ++ words ds
unfolding words
words-append [] ds = refl
words-append (c ∷ cs) ds = rw (words-append cs ds)

pub All-append {ℓ} :
    {A : Type ℓ} (P : A → Type 0) (xs ys : List A) → All P xs → All P ys → All P (xs ++ ys)
All-append P [] ys h k = k
All-append P (x ∷ xs) ys (hx, hxs) k = (hx, All-append P xs ys hxs k)

-- Four bytes give back the word that they were made from.
pub bytes_word-word_bytes : (w : ℕ) → w < 2 ^ 32 → bytes_word (word_bytes w) ≡ w
bytes_word-word_bytes w h = omega arith

pub IsWord-lt : {c : List ℕ} → IsWord c → val c < 2 ^ 32
IsWord-lt {c} h = rw (h.full) at (val-lt c h.bits)

-- A short list of bits leaves the top bit of a word free.
pub val-lt_short : (n : ℕ) (bs : List ℕ) → IsBits bs → length bs ≤ n → val bs < 2 ^ n
val-lt_short n bs h le =
    let up : 2 ^ length bs ≤ 2 ^ n = pow-le-pow_right (omega arith) le in omega (arith, val-lt bs h)

pub val-snoc : (bs : List ℕ) (b : ℕ) → val (bs ++ (b ∷ [])) ≡ 2 * val bs + b
unfolding val
val-snoc bs b = omega (arith, val-append bs (b ∷ []))
