-- ===== src/Fdb/Hex.antt =====
-- The text of a digest.
use dach.Base.{
  ℕ, suc, ◌+◌, ◌-◌, ◌*◌, ◌/◌, ◌%◌, ◌≤◌, ◌≡◌, refl, ap, ap₂, sym, ◌∙◌, arith, Array, put, store_lem,
  Result, ok, ltb, if◌then◌else◌, List, [], ◌∷◌, ◌++◌, length, Option, some,
}
use mathlib.Core.List.{append_assoc, append-nil}
use dach.Block.{slice}
use dach.Block.Write.{slice-snoc, slice-put}
use dach.Fdb.{hexchar, buf_len, hex_loop, io_md5}

-- Two digits for each byte, the higher one first.
unfoldable pub hex_of : List ℕ → List ℕ
hex_of [] = []
hex_of (b ∷ bs) = hexchar (b / 16) ∷ hexchar (b % 16) ∷ hex_of bs

-- The value of a digit, and the bytes of a text.
abbrev pub digit : ℕ → ℕ
digit c = if ltb c 58 then c - 48 else c - 87

abbrev pub unhex : List ℕ → List ℕ
unhex [] = []
unhex (a ∷ []) = []
unhex (a ∷ b ∷ rest) = (digit a * 16 + digit b) ∷ unhex rest

digit-hexchar : (n : ℕ) → digit (hexchar n) ≡ n
digit-hexchar n = ground arith

unhex-hex_of : (bs : List ℕ) → unhex (hex_of bs) ≡ bs
unfolding hex_of
unhex-hex_of [] = refl
unhex-hex_of (b ∷ bs) =
    let joined : b / 16 * 16 + b % 16 ≡ b = omega arith in
    ap₂ (λ x xs. x ∷ xs)
      (ap₂ (λ x y. x * 16 + y) (digit-hexchar (b / 16)) (digit-hexchar (b % 16)) ∙ joined)
      (unhex-hex_of bs)

record Digits (cs : List ℕ) (n : ℕ) (out : Array) (result : Result Array) : Type 0 where
  buf : Array
  returns : result ≡ ok buf
  text : slice buf 0 (n + 2 * length cs) ≡ slice out 0 n ++ hex_of cs

hex_loop-Digits :
    (cs : List ℕ) (n : ℕ) (out : Array)
    → n + 2 * length cs ≤ buf_len
    → Digits cs n out (hex_loop cs n out)
unfolding hex_loop hex_of
hex_loop-Digits [] n out h =
    let e : n ≡ n + 2 * 0 = omega arith in
    record {
      buf = out;
      returns = refl;
      text = ap (λ m. slice out 0 m) (sym e) ∙ sym (append-nil (slice out 0 n));
    }
hex_loop-Digits (c ∷ cs) n out h =
    let hi = hexchar (c / 16) in
    let lo = hexchar (c % 16) in
    let one : Array = put out n hi in
    let two : Array = put one (n + 1) lo in
    let rest = hex_loop-Digits cs (n + 2) two (omega arith) in
    let e : n + 2 + 2 * length cs ≡ n + 2 * suc (length cs) = omega arith in
    let next : n + 2 ≡ n + 1 + 1 = omega arith in
    record {
      buf = rest.buf;
      returns =
          rw
            (
              store_lem buf_len out n hi (omega arith),
              store_lem buf_len one (n + 1) lo (omega arith),
            )
            rest.returns;
      text =
          ap (λ m. slice rest.buf 0 m) (sym e)
          ∙ rest.text
          ∙ ap (λ m. slice two 0 m ++ hex_of cs) next
          ∙ ap (λ t. t ++ hex_of cs)
              (slice-snoc one lo (n + 1) ∙ ap (λ t. t ++ (lo ∷ [])) (slice-snoc out hi n))
          ∙ append_assoc (slice out 0 n ++ (hi ∷ [])) (lo ∷ []) (hex_of cs)
          ∙ append_assoc (slice out 0 n) (hi ∷ []) (lo ∷ hex_of cs);
    }

-- `result` is the digest as text of 32 digits, with a zero behind it.
pub record IsText (digest : List ℕ) (result : Result (Option Array)) : Type 0 where
  pub buf : Array
  pub returns : result ≡ ok (some buf)
  pub text : slice buf 0 32 ≡ hex_of digest
  pub ends : buf 32 ≡ 0
  pub back : unhex (slice buf 0 32) ≡ digest

-- For a file that can be read, and a digest of 16 bytes, `io_md5` leaves the 32 hexadecimal digits of the digest in
-- the buffer, with a zero behind them. The digest can be read back from them.
pub io_md5-IsText :
    (md5 : List ℕ → List ℕ) (bytes : List ℕ) (out : Array)
    → length (md5 bytes) ≡ 16
    → IsText (md5 bytes) (io_md5 md5 (some bytes) out)
unfolding io_md5 slice
io_md5-IsText md5 bytes out sixteen =
    let d = hex_loop-Digits (md5 bytes) 0 out (omega (arith, sixteen)) in
    let all : 0 + 2 * length (md5 bytes) ≡ 32 = omega (arith, sixteen) in
    let ended : Array = put d.buf 32 0 in
    let text : slice ended 0 32 ≡ hex_of (md5 bytes) =
      slice-put d.buf 32 0 0 32 (omega arith) ∙ ap (λ m. slice d.buf 0 m) (sym all) ∙ d.text in
    record {
      buf = ended;
      returns = rw (d.returns) refl;
      text = text;
      ends = refl;
      back = ap unhex text ∙ unhex-hex_of (md5 bytes);
    }
