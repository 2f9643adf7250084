-- ===== src/Outcome.antt =====
-- How a promise settles, and how a call of a provider answers.
pub data Outcome {ℓ} (A : Type ℓ) : Type ℓ where
  resolved : A → Outcome A
  rejected : Outcome A

-- A promise that settles, or an exception before there is one.
pub data Reply {ℓ} (A : Type ℓ) : Type ℓ where
  fulfils : A → Reply A
  rejects throws : Reply A

-- A reply within a time limit, or none.
pub data Timed {ℓ} (A : Type ℓ) : Type ℓ where
  in_time : Reply A → Timed A
  late : Timed A
