-- ===== src/Model.antt =====
-- inc/dach/dach_ppm0.h: the operations by which the coder reaches its model, and what it relies on.
use dach.Base.{ℕ, ◌+◌, ◌≤◌, ◌<◌, ◌^◌, ◌≡◌, Result, ok}

-- `dach_ppm_api`, with the type of what `priv` points to.
pub record PpmApi : Type 1 where
  pub Model : Type 0
  pub find_sym : Model → ℕ → Result ℕ
  pub update : Model → ℕ → Result (ℕ × Model)
  pub scale : Model → ℕ
  pub cumfreq : Model → ℕ → Result ℕ
  pub chr_to_sym : Model → ℕ → Result ℕ
  pub sym_to_chr : Model → ℕ → Result ℕ

-- A symbol of a byte, with the bounds of its range among `n` occurrences.
pub record Range (api : PpmApi) (m : api.Model) (n chr : ℕ) : Type 0 where
  pub symbol : ℕ
  pub from : ℕ
  pub to : ℕ
  pub of_chr : api.chr_to_sym m chr ≡ ok symbol
  pub to_chr : api.sym_to_chr m symbol ≡ ok chr
  pub symbol_pos : 1 ≤ symbol
  pub symbol_le : symbol ≤ 256
  pub cumfreq_to : api.cumfreq m symbol ≡ ok to
  pub cumfreq_from : api.cumfreq m (symbol + 1) ≡ ok from
  pub nonempty : from < to
  pub inside : to ≤ n
  pub found : (target : ℕ) → from ≤ target → target < to → api.find_sym m target ≡ ok symbol

-- The model after one more occurrence.
pub record Next (api : PpmApi) (IsModel : ℕ → api.Model → Type 0) (n : ℕ)
    (result : Result (ℕ × api.Model)) : Type 0 where
  pub model : api.Model
  pub returns : result ≡ ok (n, model)
  pub valid : IsModel n model

-- `IsModel n m`: the model `m` counts `n` occurrences, and gives each byte a range of its own.
pub record PpmLaws (api : PpmApi) : Type 1 where
  pub IsModel : ℕ → api.Model → Type 0
  pub scale_lem : (n : ℕ) (m : api.Model) → IsModel n m → api.scale m ≡ n
  pub range : (n chr : ℕ) (m : api.Model) → IsModel n m → chr < 256 → Range api m n chr
  pub next :
      (n s : ℕ) (m : api.Model)
      → IsModel n m
      → n + 1 < 2 ^ 32
      → 1 ≤ s
      → s ≤ 256
      → Next api IsModel (n + 1) (api.update m s)
