-- ===== src/Dashboard/Http.antt =====
-- internal/dashboard: the answer of an HTTP handler.
use localproxy.Base.{ℕ, Bytes}

-- `http.Error` with its status and text, or what the handler writes otherwise.
pub data Response {ℓ} (A : Type ℓ) : Type ℓ where
  http_error : ℕ → Bytes → Response A
  written : A → Response A
