-- ===== src/Dict/Values.antt =====
-- What a loop over the entries of a dict sees.
use xiaowei_agent.Prelude.{List, map}

-- `d.values()`
abbrev pub values {ℓ κ} : {K : Type ℓ} {V : Type κ} → List (K × V) → List V
values d = map (λ e. e.1) d
