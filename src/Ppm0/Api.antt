-- ===== src/Ppm0/Api.antt =====
-- The model of dach_ppm0.c keeps what the coder relies on.
use dach.Base.{ℕ, ◌+◌, ◌-◌, ◌≤◌, ◌∙◌, ap, ◌≡◌, ◌<◌, ok, arith}
use dach.Model.{PpmApi, PpmLaws, Range}
use dach.Ppm0.{Ppm0, find_sym, update, cumfreq, chr_to_sym, sym_to_chr}
use dach.Ppm0.Inv.{IsValid, IsSym, cumfreq_of, owed, cumfreq-le}
use dach.Ppm0.Find.{
  cumfreq_lem, cumfreq_of-lt, find_sym-IsFound, IsFound-unique, sym_to_chr-chr_to_sym,
}
use dach.Ppm0.Update.{update-Updated}

-- `static dach_ppm_api api`
abbrev pub ppm0_api : PpmApi
ppm0_api = record {
  Model = Ppm0;
  find_sym = find_sym;
  update = update;
  scale = λ ppm. ppm.scale;
  cumfreq = cumfreq;
  chr_to_sym = chr_to_sym;
  sym_to_chr = sym_to_chr;
}

module _ {n : ℕ} {ppm : Ppm0} (v : IsValid n ppm) where
  cumfreq_of-le : (s : ℕ) → IsSym s → cumfreq_of ppm s ≤ n
  cumfreq_of-le s hs =
      let e : s - 1 + 1 ≡ s = omega arith in
      let le : cumfreq_of ppm s + owed 0 s ≤ n =
        rw e at (cumfreq-le v.sums (s - 1) (omega arith)) in
      omega arith

  found_in :
      (s target : ℕ)
      → IsSym s
      → cumfreq_of ppm (s + 1) ≤ target
      → target < cumfreq_of ppm s
      → find_sym ppm target ≡ ok s
  found_in s target hs lo hi =
      let total : target < n = omega (arith, cumfreq_of-le s hs) in
      let (t, returns, found) = (find_sym-IsFound v target).0 total in
      returns
      ∙ ap ok (IsFound-unique target t s v found (record { is_sym = hs; above = lo; below = hi }))

  ppm0-Range : (chr : ℕ) → chr < 256 → Range ppm0_api ppm n chr
  ppm0-Range chr h =
      let (s, of_chr, lo, hi, to_chr) = sym_to_chr-chr_to_sym chr v (omega arith) in
      record {
        symbol = s;
        from = cumfreq_of ppm (s + 1);
        to = cumfreq_of ppm s;
        of_chr = of_chr;
        to_chr = to_chr;
        symbol_pos = lo;
        symbol_le = hi;
        cumfreq_to = cumfreq_lem s v lo (omega arith);
        cumfreq_from = cumfreq_lem (s + 1) v (omega arith) (omega arith);
        nonempty = cumfreq_of-lt s v (omega arith);
        inside = cumfreq_of-le s (omega arith);
        found = λ target. found_in s target (omega arith);
      }

-- The adaptive model is a model for the coder.
pub ppm0_laws : PpmLaws ppm0_api
ppm0_laws = record {
  IsModel = λ n ppm. IsValid n ppm;
  scale_lem = λ n ppm v. v.total;
  range = λ n chr ppm v. ppm0-Range v chr;
  next = λ n s ppm v small lo hi.
      let u = update-Updated s v small lo hi in
      record { model = u.out; returns = u.returns; valid = u.valid };
}

pub IsValid-IsModel : {n : ℕ} {ppm : Ppm0} → IsValid n ppm → ppm0_laws.IsModel n ppm
unfolding ppm0_laws
IsValid-IsModel v = v
