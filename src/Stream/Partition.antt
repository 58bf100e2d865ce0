-- ===== src/Stream/Partition.antt =====
-- The blocks of a stream are a partition of the file.
use native.Mathlib.Nat.{div-add-mod', mod-lt, mod-eq_of_lt, mod_self, mul-le-mul_right}
use dach.Base.{
  ℕ, zero, suc, ◌+◌, ◌*◌, ◌/◌, ◌%◌, ◌≤◌, ◌<◌, ◌≡◌, refl, ap, sym, ◌∙◌, arith, ok, if◌then◌else◌,
  ◌==◌, false,
}
use dach.Stream.{get_block_count, get_last_block_size}

-- A count of blocks: all but one of `block_size`, and the last of at least one byte.
pub record Counted (size block_size : ℕ) : Type 0 where
  pub before : ℕ
  pub last : ℕ
  pub count_lem : get_block_count size block_size ≡ ok (suc before)
  pub last_lem : (if size % block_size == 0 then block_size else size % block_size) ≡ last
  pub last_size : get_last_block_size size block_size ≡ ok (last % block_size)
  pub total : before * block_size + last ≡ size
  pub last_pos : 0 < last
  pub last_le : last ≤ block_size

get_last_block_size_lem :
    (size : ℕ) {block_size : ℕ} (count last : ℕ)
    → 0 < block_size
    → get_block_count size block_size ≡ ok count
    → size % block_size ≡ last % block_size
    → get_last_block_size size block_size ≡ ok (last % block_size)
unfolding get_last_block_size
get_last_block_size_lem size count last proper e same = rw e (ground (arith, same))

get_block_count-one :
    {size block_size : ℕ} → size ≤ block_size → get_block_count size block_size ≡ ok 1
unfolding get_block_count
get_block_count-one h = ground arith

get_block_count-rest :
    {size block_size : ℕ} (q r : ℕ)
    → 0 < block_size
    → block_size < size
    → size / block_size ≡ suc q
    → size % block_size ≡ r
    → get_block_count size block_size ≡ ok (if r == 0 then suc q else suc (suc q))
unfolding get_block_count
get_block_count-rest q r proper h e f = rw (e, f) (ground arith)

-- A file of at least one byte, in blocks of at least one, is counted as so many full blocks and a last one of at least
-- one byte and no more than the others. `get_last_block_size` gives the size of the last block, but 0 for a full one.
pub get_block_count-Counted :
    (size block_size : ℕ) → 0 < size → 0 < block_size → Counted size block_size
get_block_count-Counted size block_size some proper =
    go (size / block_size) (size % block_size) refl refl
  where
    parts : size / block_size * block_size + size % block_size ≡ size
    parts = div-add-mod' size block_size

    go : (q r : ℕ) → size / block_size ≡ q → size % block_size ≡ r → Counted size block_size
    go zero r e f =
        let small : size < block_size =
          omega (arith, parts, ap (λ (t : ℕ). t * block_size) e, mod-lt size proper) in
        record {
          before = 0;
          last = size;
          count_lem = get_block_count-one (omega arith);
          last_lem = rw (mod-eq_of_lt small) (ground arith);
          last_size =
              get_last_block_size_lem size 1 size proper (get_block_count-one (omega arith)) refl;
          total = omega arith;
          last_pos = some;
          last_le = omega arith;
        }
    go (suc zero) zero e f = record {
      before = 0;
      last = block_size;
      count_lem = get_block_count-one (omega (arith, parts, ap (λ (t : ℕ). t * block_size) e));
      last_lem = rw f refl;
      last_size =
          get_last_block_size_lem size 1 block_size proper
            (get_block_count-one (omega (arith, parts, ap (λ (t : ℕ). t * block_size) e)))
            (f ∙ sym (mod_self block_size));
      total = omega (arith, parts, ap (λ (t : ℕ). t * block_size) e);
      last_pos = proper;
      last_le = omega arith;
    }
    go (suc (suc q)) zero e f =
        let sized : suc (suc q) * block_size ≡ size =
          omega (arith, parts, ap (λ (t : ℕ). t * block_size) e) in
        let count : get_block_count size block_size ≡ ok (suc (suc q)) =
          get_block_count-rest (suc q) 0 proper
            (omega
              (arith, sized, mul-le-mul_right {m = 2} {n = suc (suc q)} block_size (omega arith)))
            e f
          ∙ ap ok (omega arith) in
        record {
          before = suc q;
          last = block_size;
          count_lem = count;
          last_lem = rw f refl;
          last_size =
              get_last_block_size_lem size (suc (suc q)) block_size proper count
                (f ∙ sym (mod_self block_size));
          total = omega (arith, sized);
          last_pos = proper;
          last_le = omega arith;
        }
    go (suc q) (suc r) e f =
        let sized : suc q * block_size + suc r ≡ size =
          omega (arith, parts, ap (λ (t : ℕ). t * block_size) e) in
        let test : (suc r == 0) ≡ false = ground arith in
        let less : suc r < block_size = omega (arith, mod-lt size proper) in
        let count : get_block_count size block_size ≡ ok (suc (suc q)) =
          get_block_count-rest q (suc r) proper
            (omega (arith, sized, mul-le-mul_right {m = 1} {n = suc q} block_size (omega arith))) e
            f
          ∙ rw test (ap ok (omega arith)) in
        record {
          before = suc q;
          last = suc r;
          count_lem = count;
          last_lem = rw (f, test) refl;
          last_size =
              get_last_block_size_lem size (suc (suc q)) (suc r) proper count
                (f ∙ sym (mod-eq_of_lt less));
          total = sized;
          last_pos = omega arith;
          last_le = omega (arith, less);
        }
