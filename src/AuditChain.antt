-- ===== src/AuditChain.antt =====
-- src/modules/audit/audit.repository.ts: the audit log, each of whose rows has the hash of its
-- content and of the row before it, and the verification of that chain.
-- Ids, texts and hashes are numbers; `JSON.stringify` and sha256 are arguments.
use backend_foundation.Prelude.{
  ℕ, zero, suc, ◌+◌, ◌-◌, ◌==◌, Bool, true, false, Option, none, some, List, [], ◌∷◌, ◌++◌, find,
  keep, length, is_some, if◌then◌else◌,
}
pub mod Distinct
pub mod Verification
pub mod Walk
pub mod Laws
pub mod Tampering
pub mod Soundness
pub mod Termination
mod Tests

-- What `AuditService` hands over (CreateAuditLogInput of audit.types.ts).
pub record AuditInput : Type 0 where
  pub user_id : Option ℕ
  pub action : ℕ
  pub entity : ℕ
  pub entity_id : Option ℕ
  pub ip_address : Option ℕ
  pub user_agent : Option ℕ
  pub details : Option ℕ

pub record AuditLog : Type 0 where
  pub id : ℕ
  pub content : AuditInput
  pub created_at : ℕ
  pub hash : Option ℕ
  pub previous_hash : Option ℕ

-- The object that is turned into a text: `details` is a key of it only where there are any.
pub data Canonical : Type 0 where
  base : ℕ → Option ℕ → ℕ → ℕ → Option ℕ → Option ℕ → Option ℕ → ℕ → Canonical
  with_details : Canonical → ℕ → Canonical

pub record Digest : Type 0 where
  pub stringify : Canonical → ℕ
  pub sha256 : ℕ → Option ℕ → ℕ

abbrev base_of : ℕ → AuditInput → ℕ → Canonical
base_of id c created_at =
    base id c.user_id c.action c.entity c.entity_id c.ip_address c.user_agent created_at

abbrev add_details : Canonical → Option ℕ → Canonical
add_details b none = b
add_details b (some d) = with_details b d

unfoldable pub canonicalize : Digest → ℕ → AuditInput → ℕ → ℕ
canonicalize digest id c created_at =
    digest.stringify (add_details (base_of id c created_at) c.details)

unfoldable pub compute_hash : Digest → ℕ → Option ℕ → ℕ
compute_hash digest canonical previous = digest.sha256 canonical previous

-- The table, in the order of insertion, and the row of `audit_chain_state`.
pub record AuditStore : Type 0 where
  pub rows : List AuditLog
  pub last_hash : Option ℕ

-- One transaction, which holds the lock on the last hash.
unfoldable pub create : Digest → ℕ → ℕ → AuditInput → AuditStore → AuditStore
unfolding compute_hash canonicalize
create digest id now input store =
    let hash = compute_hash digest (canonicalize digest id input now) store.last_hash in
    record {
      rows =
          store.rows
          ++ record {
            id = id;
            content = input;
            created_at = now;
            hash = some hash;
            previous_hash = store.last_hash;
          }
            ∷ [];
      last_hash = some hash;
    }

pub data ChainCheck : Type 0 where
  valid : ChainCheck
  forked content_changed : ℕ → ChainCheck
  detached : ℕ → ChainCheck

abbrev pub same_hash : Option ℕ → Option ℕ → Bool
same_hash none none = true
same_hash none (some n) = false
same_hash (some m) none = false
same_hash (some m) (some n) = m == n

-- `byPreviousHash.get`
unfoldable pub by_previous : Option ℕ → List AuditLog → Option AuditLog
by_previous h rows = find (λ r. same_hash r.previous_hash h) rows

-- The first row that names the same previous row as one before it.
unfoldable pub find_fork : List AuditLog → List AuditLog → Option ℕ
unfolding by_previous
find_fork seen [] = none
find_fork seen (r ∷ rest) =
    let later = find_fork (r ∷ seen) rest in
    if is_some (by_previous r.previous_hash seen) then some r.id else later

abbrev pub finish : ℕ → ℕ → ChainCheck
finish visited total = if visited == total then valid else detached (total - visited)

-- The `while` loop: `none` when the fuel runs out.
unfoldable pub walk :
    Digest → ℕ → List AuditLog → Option AuditLog → Option ℕ → ℕ → Option ChainCheck
unfolding by_previous compute_hash canonicalize
walk digest fuel rows none expected_previous visited = some (finish visited (length rows))
walk digest zero rows (some current) expected_previous visited = none
walk digest (suc fuel) rows (some current) expected_previous visited =
    let next = walk digest fuel rows (by_previous current.hash rows) current.hash (visited + 1) in
    if same_hash current.hash (
      some (
        compute_hash digest (canonicalize digest current.id current.content current.created_at)
          expected_previous))
    then next
    else some (content_changed current.id)

abbrev check_rows : Digest → ℕ → List AuditLog → Option ℕ → Option ChainCheck
check_rows digest fuel rows (some id) = some (forked id)
check_rows digest fuel rows none = walk digest fuel rows (by_previous none rows) none 0

-- Rows of the time before the chain have no hash and are left out.
unfoldable pub verify_chain_integrity : Digest → ℕ → List AuditLog → Option ChainCheck
unfolding find_fork walk
verify_chain_integrity digest fuel table =
    let rows = keep (λ r. is_some r.hash) table in check_rows digest fuel rows (find_fork [] rows)
