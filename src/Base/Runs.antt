-- ===== src/Base/Runs.antt =====
-- What a run of a loop on fuel comes to: the program ends, the fuel runs out, or a result.
pub data Run {ℓ} (A : Type ℓ) : Type ℓ where
  fatal unfinished : Run A
  returns : A → Run A
