-- ===== src/Contracts/Json.antt =====
-- The JSON payloads that digests are taken of, and instants.
use xiaowei_agent.Prelude.{ℕ, String, Option, none, some, ◌*◌}

mutual
  pub data Json : Type 0 where
    null : Json
    str : String → Json
    num : ℕ → Json
    arr : Items → Json
    obj : Fields → Json

  pub data Items : Type 0 where
    nil : Items
    cons : Json → Items → Items

  pub data Fields : Type 0 where
    end : Fields
    field : String → Json → Fields → Fields

-- An optional text in a payload.
abbrev pub str_or_null : Option String → Json
str_or_null none = null
str_or_null (some s) = str s

-- A datetime is a number of microseconds; `timedelta(seconds=n)`.
abbrev pub seconds : ℕ → ℕ
seconds n = n * 1000000
