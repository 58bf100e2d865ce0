-- ===== src/Ar64/Coder.antt =====
-- Narrowing the interval by a symbol, and the encoder and the decoder built on it.
use Prim.Native.Nat.{bit_and, bit_or, bit_xor}
use dach.Base.{
  ℕ, zero, suc, ◌+◌, ◌-◌, ◌*◌, ◌/◌, ◌^◌, Bool, true, false, Result, ok, err, no_fuel, exits, check,
  assert, ◌>>=◌, ◌>>◌, ltb, leb, ◌==◌, ◌&&◌, ◌||◌, not, if◌then◌else◌, u8, u32, u64, List, ◌++◌,
  take, drop,
}
use dach.Model.{PpmApi}
use dach.Block.{Block, get_length}
use dach.Ar64.State.{Io, files, blocks, Arc, word_bytes, bytes_word}
use dach.Ar64.Stream.{write_stream, bitin}

abbrev pub io_size : ℕ
io_size = 32

-- One round shifts the interval by a bit, and 32 rounds are enough for any interval of 32 bits.
abbrev pub rounds : ℕ
rounds = 33

module _ (api : PpmApi) (self : ℕ) where
  abbrev Coder : Type 0
  Coder = Arc api.Model

  -- What both constructors set.
  abbrev pub fresh : api.Model → Io → ℕ → Coder
  fresh m io blocksize = record {
    model = m;
    io = io;
    eof_in = false;
    stop = false;
    underflow = 0;
    low = 0;
    high = 0xFFFFFFFF;
    range = 0;
    total_syms = 0;
    total_bits_in = 0;
    total_bits_out = 0;
    io_buffer = 0;
    io_buffer_full = io_size;
    io_buffer_size = io_size;
    esym = 0;
    blocksize = blocksize;
    scale = api.scale m;
  }

  -- `dach_new_arcoder_`
  unfoldable pub new_block_arcoder : api.Model → Block → Result Coder
  new_block_arcoder m block = do
    n ← get_length self block
    assert (not (api.scale m == 0))
    ok (fresh m (blocks block) n)

  -- `dach_new_arcoder`: at block size 0 the size is read from the input, else it is written
  -- to the output.
  unfoldable pub new_arcoder : api.Model → List ℕ → List ℕ → ℕ → Result Coder
  new_arcoder m input output blocksize = do
    assert (not (api.scale m == 0))
    if blocksize == 0
        then ok (fresh m (files (drop 4 input) output) (bytes_word (take 4 input)))
        else ok (fresh m (files input (output ++ word_bytes (u32 blocksize))) blocksize)

  unfoldable pub low_scale : Coder → ℕ → Result ℕ
  low_scale arc sym = do
    assert (leb sym 256)
    assert (not (sym == 0))
    cf ← api.cumfreq arc.model (sym + 1)
    let ls6 = u64 (arc.low + u64 (arc.range * cf) / arc.scale)
    check (ls6 == u32 ls6) exits
    ok ls6

  unfoldable pub high_scale : Coder → ℕ → Result ℕ
  high_scale arc sym = do
    assert (leb sym 256)
    assert (not (arc.scale == 0))
    cf ← api.cumfreq arc.model sym
    let hs6 = u64 (arc.low + u64 (arc.range * cf) / arc.scale + 2 ^ 64 - 1)
    check (hs6 == u32 hs6) exits
    ok hs6

  unfoldable pub calc_range : Coder → Result ℕ
  calc_range arc = do
    check (ltb arc.low arc.high) exits
    let tmp = u64 (arc.high - arc.low + 1)
    assert (not (tmp == 0))
    ok tmp

  unfoldable pub encode_step : Coder → ℕ → Result Coder
  unfolding calc_range high_scale low_scale
  encode_step arc sym = do
    assert (not (sym == 0) && leb sym 256)
    assert (ltb arc.low arc.high)
    range ← calc_range arc
    let arc' = record arc { range = range }
    check (not (range == 0)) exits
    hs ← high_scale arc' sym
    ls ← low_scale arc' sym
    check (leb ls hs) exits
    ok (record arc' { high = hs; low = ls })

  -- The shift at the end of a round: a 0 comes into `low`, a 1 into `high`.
  abbrev pub shift : Coder → Coder
  shift arc = record arc {
    low = bit_and (u64 (arc.low * 2)) 0xFFFFFFFF;
    high = bit_and (bit_or (u64 (arc.high * 2)) 1) 0xFFFFFFFF;
  }

  -- The tests of both loops: equal top bits, and an interval across the middle that lies
  -- between the first and the third quarter.
  abbrev pub same_top : Coder → Bool
  same_top arc = bit_and arc.high 0x80000000 == bit_and arc.low 0x80000000

  abbrev pub straddles : Coder → Bool
  straddles arc = not (bit_and arc.low 0x40000000 == 0) && (bit_and arc.high 0x40000000 == 0)

  -- The second top bits taken out of an interval that straddles the middle.
  abbrev pub squeeze : Coder → Coder
  squeeze arc = record arc { low = bit_and arc.low 0x3FFFFFFF; high = bit_or arc.high 0x40000000 }

  -- The loop of `dach_encode`.
  unfoldable pub encode_loop : ℕ → Coder → Result Coder
  encode_loop zero arc = err no_fuel
  encode_loop (suc fuel) arc =
      if same_top arc
      then (do arc ← write_stream self arc (u32 (arc.high / 2 ^ 31)); encode_loop fuel (shift arc))
      else (if straddles arc
          then (do
            arc ← ok (record (squeeze arc) { underflow = u32 (arc.underflow + 1) })
            encode_loop fuel (shift arc))
          else ok arc)

  -- `dach_encode`
  unfoldable pub encode : Coder → ℕ → Result Coder
  encode arc chr = do
    sym ← api.chr_to_sym arc.model chr
    arc ← encode_step arc sym
    arc ← encode_loop rounds (record arc { total_syms = u64 (arc.total_syms + 1) })
    (scale, model) ← api.update arc.model sym
    ok (record arc { scale = scale; model = model })

  -- The next bit of the input joins the code word.
  unfoldable pub take_bit : Coder → Result Coder
  take_bit arc = do
    assert (ltb arc.low arc.high)
    let esym = bit_and (u32 (arc.esym * 2)) 0xFFFFFFFF
    (b, arc) ← bitin self arc
    ok (record arc { esym = bit_or esym b })

  -- The loop of `dach_decode`.
  unfoldable pub decode_loop : ℕ → Coder → Result Coder
  decode_loop zero arc = err no_fuel
  decode_loop (suc fuel) arc = do
    assert (ltb arc.low arc.high)
    if same_top arc
        then (do arc ← take_bit (shift arc); decode_loop fuel arc)
        else (if straddles arc
            then (do
              arc ← ok (record (squeeze arc) { esym = bit_xor arc.esym 0x40000000 })
              assert (ltb arc.low arc.high)
              arc ← take_bit (shift arc)
              decode_loop fuel arc)
            else ok arc)

  -- `dach_decode`: the character and the coder.
  unfoldable pub decode : Coder → Result (ℕ × Coder)
  decode arc = do
    assert (ltb arc.low arc.high)
    range ← calc_range arc
    let distance = u64 (arc.esym + 2 ^ 64 - arc.low)
    let target = u64 (u64 (u64 (distance + 1) * arc.scale) + 2 ^ 64 - 1) / range
    sym ← api.find_sym arc.model target
    let arc = record arc { range = range; total_syms = u64 (arc.total_syms + 1) }
    assert (leb arc.total_syms arc.blocksize)
    if arc.total_syms == arc.blocksize
        then (do chr ← api.sym_to_chr arc.model sym; ok (u8 chr, record arc { stop = true }))
        else (do
          assert (leb sym 256)
          arc ← encode_step arc sym
          cf ← api.cumfreq arc.model sym
          assert (leb cf arc.scale)
          arc ← decode_loop rounds arc
          chr ← api.sym_to_chr arc.model sym
          (scale, model) ← api.update arc.model sym
          let arc = record arc { scale = scale; model = model }
          assert (ltb arc.low arc.high)
          ok (chr, arc))

  -- The loop of `dach_stop_encoder`, which fills the word up with copies of a bit.
  unfoldable pub fill_up : ℕ → Coder → ℕ → Result Coder
  fill_up zero arc bit = err no_fuel
  fill_up (suc fuel) arc bit =
      if arc.io_buffer_full == 0
      then ok arc
      else (do arc ← write_stream self arc bit; fill_up fuel arc bit)

  -- `dach_stop_encoder`: enough bits to tell the interval, then copies of the last one until a
  -- full word has gone out.
  unfoldable pub stop_encoder : Coder → Result Coder
  stop_encoder arc = do
    assert (arc.total_syms == arc.blocksize)
    let tmp = bit_and (u32 arc.low) 0x80000000
    assert ((tmp == 1) || (tmp == 0))
    let arc = record arc { underflow = u32 (arc.underflow + 1) }
    arc ← write_stream self arc (1 - tmp)
    arc ← write_stream self arc tmp
    arc ← fill_up rounds arc tmp
    write_stream self arc tmp

  unfoldable pub start_loop : ℕ → Coder → Result Coder
  start_loop zero arc = ok arc
  start_loop (suc n) arc = do
    let esym = u32 (arc.esym * 2)
    (b, arc) ← bitin self arc
    start_loop n (record arc { esym = u32 (esym + b) })

  -- `dach_start_decoder`
  unfoldable pub start_decoder : Coder → Result Coder
  unfolding start_loop
  start_decoder arc = start_loop 32 (record arc { io_buffer_full = 0 })
