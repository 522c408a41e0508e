-- ===== src/Api/Mutate.antt =====
-- Mutations: a function that makes a request or throws, and what follows its answer.
use quiteline.Base.{Str}
use quiteline.Wire.{Reply, error}
use quiteline.Api.Request.{Request}

pub data Mutation : Type 0 where
  ask : Request → Mutation
  throw : Str → Mutation

-- An error that the function throws goes the way of a request's error.
abbrev pub run_mutation : {A : Type 0} → (Request → Reply A) → Mutation → Reply A
run_mutation server (ask r) = server r
run_mutation server (throw e) = error e
