-- ===== src/Ar64/Trace.antt =====
-- The intervals and models that encoder and decoder go through, for the characters of a block.
use dach.Base.{
  ℕ, ◌+◌, ◌*◌, ◌^◌, ◌≤◌, ◌<◌, ◌≡◌, arith, List, [], ◌∷◌, ◌++◌, length, length-append, All, ok,
}
use dach.Model.{PpmApi, PpmLaws, Range}
use dach.Ar64.Interval.{IsInterval, IsNormal, Shifts, IsInterval-Normalised, IsNormal-wide}
use dach.Ar64.Narrow.{width, narrow_low, narrow_high, narrow-IsInterval}

module _ (api : PpmApi) (laws : PpmLaws api) where
  -- One character: its range, the shifts of its interval, and the updated model.
  pub record Turn (m : api.Model) (n low high chr : ℕ) : Type 0 where
    pub range : Range api m n chr
    pub low' : ℕ
    pub high' : ℕ
    pub vs : List ℕ
    pub shifts :
        Shifts (narrow_low low high n range.from) (narrow_high low high n range.to) low' high' vs
    pub few : length vs ≤ 31
    pub interval : IsInterval low' high'
    pub normal : IsNormal low' high'
    pub model : api.Model
    pub updates : api.update m range.symbol ≡ ok (n + 1, model)
    pub valid : laws.IsModel (n + 1) model

  -- A model of `n` occurrences with a normal interval, in which there is room for them all.
  pub record Stage (m : api.Model) (n low high : ℕ) : Type 0 where
    pub counts : laws.IsModel n m
    pub interval : IsInterval low high
    pub normal : IsNormal low high
    pub small : n ≤ 2 ^ 29

  pub Stage-wide : {m : api.Model} {n low high : ℕ} → Stage m n low high → 2 * n ≤ width low high
  Stage-wide s = omega (arith, IsNormal-wide s.normal, s.small)

  -- The characters in turn, and all their shifts.
  pub data Trace : (m : api.Model) (n low high : ℕ) (chrs vs : List ℕ) → Type 0 where
    end : {m : api.Model} {n low high : ℕ} → Stage m n low high → Trace m n low high [] []
    turn :
        {m : api.Model} {n low high chr : ℕ} {chrs ws : List ℕ}
        → Stage m n low high
        → (t : Turn m n low high chr) → Trace t.model (n + 1) t.low' t.high' chrs ws
        → Trace m n low high (chr ∷ chrs) (t.vs ++ ws)

  pub Stage-Turn :
      {m : api.Model} {n low high : ℕ} (chr : ℕ)
      → Stage m n low high
      → chr < 256
      → Turn m n low high chr
  Stage-Turn {m} {n} {low} {high} chr s is_byte =
      let r = laws.range n chr m s.counts is_byte in
      let shifted =
        IsInterval-Normalised (narrow-IsInterval s.interval r.nonempty r.inside (Stage-wide s)) in
      let after =
        laws.next n r.symbol m s.counts (omega (arith, s.small)) r.symbol_pos r.symbol_le in
      record {
        range = r;
        low' = shifted.low';
        high' = shifted.high';
        vs = shifted.vs;
        shifts = shifted.shifts;
        few = shifted.few;
        interval = shifted.interval;
        normal = shifted.normal;
        model = after.model;
        updates = after.returns;
        valid = after.valid;
      }

  -- Bytes have a trace from any stage with room for their number.
  pub record Traced (m : api.Model) (n low high : ℕ) (chrs : List ℕ) : Type 0 where
    pub vs : List ℕ
    pub trace : Trace m n low high chrs vs
    pub few : length vs ≤ 31 * length chrs

  pub Stage-Traced :
      (chrs : List ℕ) {m : api.Model} {n low high : ℕ}
      → Stage m n low high
      → All (λ c. c < 256) chrs
      → n + length chrs ≤ 2 ^ 29
      → Traced m n low high chrs
  Stage-Traced [] s bytes room = record { vs = []; trace = end s; few = omega arith }
  Stage-Traced (c ∷ cs) s (byte, bytes) room =
      let t = Stage-Turn c s byte in
      let rest =
        Stage-Traced cs
          (record {
            counts = t.valid;
            interval = t.interval;
            normal = t.normal;
            small = omega arith;
          })
          bytes (omega arith) in
      record {
        vs = t.vs ++ rest.vs;
        trace = turn s t rest.trace;
        few = omega (arith, t.few, rest.few, length-append {0} t.vs rest.vs);
      }
