-- ===== src/Examples/Data.antt =====
-- Concrete stores, requests and outside answers.
use Prim.Native.Char.{code}
use rustspell_server.Base.{ℕ, String, true, List, [], ◌∷◌, ◌%◌}
use rustspell_server.Store.Data.{Store, Env, Outcome, ok, err, panic}

abbrev pub empty_store : Store
empty_store = record {
  db = record { tenants = []; tenant_origins = []; api_keys = []; dictionaries = [] };
  pending = [];
  keys = [];
  tenants = [];
  origins_any = [];
  origins_by_tenant = [];
  dictionaries = [];
}

-- A digest for the examples: the codes of the characters.
abbrev pub codes : String → List ℕ
codes String.[] = []
codes (String.◌∷◌ c s) = code c % 256 ∷ codes s

abbrev pub env_at : ℕ → String → Env
env_at now id = record { now = now; new_id = id; simple_a = id; simple_b = id; sql_ok = λ n. true }

-- The store that a call leaves.
abbrev pub left_by {ℓ} : {A : Type ℓ} → Outcome A → Store → Store
left_by (ok a s) d = s
left_by (err e s) d = s
left_by (panic e) d = d

-- The value that a call gives.
abbrev pub given_by {ℓ} : {A : Type ℓ} → Outcome A → A → A
given_by (ok a s) d = a
given_by (err e s) d = d
given_by (panic e) d = d
