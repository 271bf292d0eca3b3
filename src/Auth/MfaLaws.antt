-- ===== src/Auth/MfaLaws.antt =====
-- What the second step of a login needs.
use backend_foundation.Auth.Users
