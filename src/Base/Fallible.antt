-- ===== src/Base/Fallible.antt =====
-- `Result<A, E>`.
pub data Result (E A : Type 0) : Type 0 where
  ok : A → Result E A
  err : E → Result E A

-- The `?` operator.
abbrev pub and_then : {E A B : Type 0} → Result E A → (A → Result E B) → Result E B
and_then (Result.ok a) f = f a
and_then (Result.err e) f = Result.err e
