-- ===== src/Ar64/DecodeEnding.antt =====
-- `dach_decode` ends on any input, with any model whose operations end.
use dach.Base.{
  ℕ, zero, suc, ◌+◌, ◌-◌, ◌*◌, ◌/◌, ◌^◌, ◌≤◌, ◌<◌, ◌≡◌, refl, arith, ltb, ◌==◌, ◌&&◌, not, true,
  exits, inl, inr, u32, u64, ==_iff, leb, leb→le, ◌⊎◌,
}
use dach.Base.Ends.{Ends, Any, ok-Ends, bind-Ends, if-Ends, check-Ends, assert-Ends, ending}
use dach.Model.{PpmApi}
use dach.Ar64.State.{Arc}
use dach.Ar64.Input.{In}
use dach.Ar64.DecodeRound.{stepped}
use dach.Ar64.Coder.{
  calc_range, low_scale, high_scale, encode_step, decode, start_loop, start_decoder,
}
use dach.Ar64.Ending.{IsFed, IsStepped, IsLeft, bitin-Ends, decode_loop-Ends}

-- The operations of the model end.
pub record EndsApi (api : PpmApi) : Type 0 where
  pub find_sym-Ends : (m : api.Model) (target : ℕ) → Ends Any (api.find_sym m target)
  pub chr_to_sym-Ends : (m : api.Model) (c : ℕ) → Ends Any (api.chr_to_sym m c)
  pub sym_to_chr-Ends : (m : api.Model) (s : ℕ) → Ends Any (api.sym_to_chr m s)
  pub cumfreq-Ends : (m : api.Model) (s : ℕ) → Ends Any (api.cumfreq m s)
  pub update-Ends : (m : api.Model) (s : ℕ) → Ends Any (api.update m s)

module _ (api : PpmApi) (ends : EndsApi api) (self : ℕ) (arc : Arc api.Model) where
  calc_range-Ends : Ends Any (calc_range api self arc)
  unfolding calc_range
  calc_range-Ends = search ending

  low_scale-Ends : (s : ℕ) → Ends Any (low_scale api self arc s)
  unfolding low_scale
  low_scale-Ends s = search (ending, ends.cumfreq-Ends) depth 12

  -- The upper end has 32 bits, or the program exits.
  high_scale-Ends : (s : ℕ) → Ends (λ high. high < 2 ^ 32) (high_scale api self arc s)
  unfolding high_scale
  high_scale-Ends s = assert-Ends _ (leb s 256) _ (λ _. assert-Ends _ (not (arc.scale == 0)) _ (λ _.
      bind-Ends Any _ _ _ (ends.cumfreq-Ends arc.model s) (λ cf _.
        let high = u64 (arc.low + u64 (arc.range * cf) / arc.scale + 2 ^ 64 - 1) in
        check-Ends _ (high == u32 high) exits _ (λ x. cc) (λ e. ok-Ends _ _ (ground arith)))))

abbrev pub IsNarrowed : {M : Type 0} → Arc M → Arc M → Type 0
IsNarrowed arc arc' =
    (range : ℕ) × (low : ℕ) × (high : ℕ) × (low ≤ high)
    × (high < 2 ^ 32)
    × (arc' ≡ record arc { range = range; low = low; high = high })

module _ (api : PpmApi) (ends : EndsApi api) (self : ℕ) (arc : Arc api.Model) where
  pub encode_step-Ends : (s : ℕ) → Ends (IsNarrowed arc) (encode_step api self arc s)
  unfolding encode_step
  encode_step-Ends s = assert-Ends _ (not (s == 0) && leb s 256) _ (λ _.
      assert-Ends _ (ltb arc.low arc.high) _ (λ _.
        bind-Ends Any _ _ _ (calc_range-Ends api ends self arc) (λ range _.
          check-Ends _ (not (range == 0)) exits _ (λ x. cc)
            (λ _.
              let ranged : Arc api.Model = record arc { range = range } in
              bind-Ends (λ high. high < 2 ^ 32) _ _ _ (high_scale-Ends api ends self ranged s)
                (λ high short. bind-Ends Any _ _ _ (low_scale-Ends api ends self ranged s) (λ low _.
                  check-Ends _ (leb low high) exits _ (λ x. cc)
                    (λ le. ok-Ends _ _ (range, low, high, leb→le low high le, short, refl))))))))

-- A coder that has taken one more character of its block, and has some left.
pub record IsNext {M : Type 0} (arc arc' : Arc M) : Type 0 where
  pub stop : arc'.stop ≡ arc.stop
  pub blocksize : arc'.blocksize ≡ arc.blocksize
  pub counted : arc'.total_syms ≡ u64 (arc.total_syms + 1)
  pub some_left : arc'.total_syms < arc.blocksize
  pub short : arc'.high < 2 ^ 32

abbrev pub IsDecoded : {M : Type 0} → Arc M → Arc M → Type 0
IsDecoded arc arc' =
    ((arc'.stop ≡ true) × (u64 (arc.total_syms + 1) ≡ arc.blocksize)) ⊎ IsNext arc arc'

module _ (api : PpmApi) (ends : EndsApi api) (self : ℕ) (arc : Arc api.Model) where
  -- The character is the last of the block, which sets `stop`, or the coder goes on with the next one.
  pub decode-Ends : Ends (λ r. IsDecoded arc r.1) (decode api self arc)
  unfolding decode
  decode-Ends = assert-Ends _ (ltb arc.low arc.high) _ (λ _.
      bind-Ends Any _ _ _ (calc_range-Ends api ends self arc) (λ range _.
        let distance = u64 (arc.esym + 2 ^ 64 - arc.low) in
        let target = u64 (u64 (u64 (distance + 1) * arc.scale) + 2 ^ 64 - 1) / range in
        bind-Ends Any _ _ _ (ends.find_sym-Ends arc.model target) (λ s _.
          let total = u64 (arc.total_syms + 1) in
          let counted : Arc api.Model = record arc { range = range; total_syms = total } in
          assert-Ends _ (leb total arc.blocksize) _ (λ le.
            if-Ends _ (total == arc.blocksize) _ _
              (λ last.
                bind-Ends Any _ _ _ (ends.sym_to_chr-Ends arc.model s)
                  (λ chr _. ok-Ends _ _ (inl (refl, (==_iff total arc.blocksize).0 last))))
              (λ ne.
                let less : total < arc.blocksize = ground (arith) in
                assert-Ends _ (leb s 256) _ (λ _.
                  bind-Ends (IsNarrowed counted) _ _ _ (encode_step-Ends api ends self counted s)
                    (λ narrowed (r, low, high, le', short, e).
                      bind-Ends Any _ _ _ (ends.cumfreq-Ends narrowed.model s) (λ cf _.
                        assert-Ends _ (leb cf narrowed.scale) _ (λ _.
                          bind-Ends (IsLeft api self narrowed) _ _ _
                            (decode_loop-Ends api self narrowed (rw e short))
                            (λ looped (low', high', short', (i, esym, e')).
                              bind-Ends Any _ _ _ (ends.sym_to_chr-Ends looped.model s) (λ chr _.
                                bind-Ends Any _ _ _ (ends.update-Ends looped.model s)
                                  (λ (scale, model) _.
                                    assert-Ends _ (ltb looped.low looped.high) _ (λ _. ok-Ends _ _ (
                                      inr (record {
                                        stop = rw (e', e) refl;
                                        blocksize = rw (e', e) refl;
                                        counted = rw (e', e) refl;
                                        some_left = rw (e', e) less;
                                        short = rw e' short';
                                      })))))))))))))))

module _ (api : PpmApi) (self : ℕ) where
  -- The first word leaves all but the input and the code word as it is.
  abbrev pub IsStarted : Arc api.Model → Arc api.Model → Type 0
  IsStarted arc arc' = IsStepped arc arc.low arc.high arc'

  start_loop-Ends :
      (n : ℕ) (arc : Arc api.Model) (i : In) (esym : ℕ)
      → Ends (IsStarted arc) (start_loop api self n (stepped arc i esym arc.low arc.high))
  unfolding start_loop
  start_loop-Ends zero arc i esym = ok-Ends _ _ (i, esym, refl)
  start_loop-Ends (suc n) arc i esym =
      bind-Ends (λ r. IsFed (stepped arc i esym arc.low arc.high) r.1) _ _ _
        (bitin-Ends self (stepped arc i esym arc.low arc.high))
        (λ (b, fed) (j, e). rw e (start_loop-Ends n arc j (u32 (u32 (esym * 2) + b))))

  pub start_decoder-Ends : (arc : Arc api.Model) → Ends (IsStarted arc) (start_decoder api self arc)
  unfolding start_decoder
  start_decoder-Ends arc =
      start_loop-Ends 32 arc
        (record {
          io = arc.io;
          eof_in = arc.eof_in;
          buffer = arc.io_buffer;
          full = 0;
          count = arc.total_bits_in;
        })
        arc.esym
