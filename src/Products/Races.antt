-- ===== src/Products/Races.antt =====
-- src/modules/products/product.service.ts: upgrades cut between the read of the row and its update.
use backend_foundation.Prelude.{
  ℕ, ◌==◌, ==_iff, ◌≡◌, refl, sym, ap, ◌∙◌, ◌<◌, leb, arith, true, false, Option, some, inl, inr,
}
use backend_foundation.Auth.Monad.{Result, ok, err}
use backend_foundation.Products.{
  Product, ProductCategory, product_category_rank, Shop, RequesterContext, with_category, find_row,
  update_product, apply_upgrade, read_and_check, check_upgrade, finish_upgrade, upgrade_product,
}
use backend_foundation.Products.Rows.{row_of-map, row_of-id}
use backend_foundation.Products.Steps.{MayUpgrade, read_and_check-cases}

pub data UpgradePhase : Type 0 where
  waiting : UpgradePhase
  checked : ProductCategory → UpgradePhase
  answered : Result Product → UpgradePhase

pub record UpgradeRequest : Type 0 where
  pub tenant : Option ℕ
  pub id : ℕ
  pub to : ProductCategory
  pub requester : RequesterContext

abbrev pub after_check : Result ProductCategory → UpgradePhase
after_check (ok from) = checked from
after_check (err e) = answered (err e)

-- One step of a request: the read with its guards, or the transaction with what follows it.
unfoldable pub upgrade_phase : UpgradeRequest → UpgradePhase × Shop → UpgradePhase × Shop
upgrade_phase r (waiting, s) =
    let c = read_and_check r.tenant r.id r.to r.requester s in (after_check c.0, c.1)
upgrade_phase r (checked from, s) =
    let f = finish_upgrade r.id from r.to r.requester s in (answered f.0, f.1)
upgrade_phase r (answered a, s) = (answered a, s)

-- A request that runs without another between its steps is the whole upgrade.
pub upgrade_phase-upgrade :
    (r : UpgradeRequest) (s : Shop)
    → upgrade_phase r (upgrade_phase r (waiting, s)) ≡ (
      answered (upgrade_product r.tenant r.id r.to r.requester s).0,
      (upgrade_product r.tenant r.id r.to r.requester s).1,
    )
unfolding upgrade_phase upgrade_product
upgrade_phase-upgrade r s = elim (read_and_check-cases r.tenant r.id r.to r.requester s) [
  | inl (e, f) ↦ rw f refl
  | inr (p, may, f) ↦ rw f refl
]

MayUpgrade-checked :
    (r : UpgradeRequest) (s : Shop) (p : Product)
    → MayUpgrade r.tenant r.id r.to r.requester s p
    → upgrade_phase r (waiting, s) ≡ (checked p.category, s)
unfolding upgrade_phase read_and_check check_upgrade
MayUpgrade-checked r s p may =
    let higher : leb (product_category_rank r.to) (product_category_rank p.category) ≡ false =
      ground (arith, may.higher) in
    rw (may.found, may.allowed, may.on_sale, may.in_stock, higher) refl

finished :
    (r : UpgradeRequest) (from : ProductCategory) (s : Shop) (p : Product)
    → find_row r.id s ≡ some p
    → ((upgrade_phase r (checked from, s)).0 ≡ answered (ok (with_category r.to p)))
      × (find_row r.id (upgrade_phase r (checked from, s)).1 ≡ some (with_category r.to p))
unfolding upgrade_phase finish_upgrade apply_upgrade update_product find_row
finished r from s p e =
    let hit : (p.id == r.id) ≡ true = (==_iff p.id r.id).1 (row_of-id r.id s.products e) in
    (
      rw e refl,
      rw e (
          row_of-map r.id (with_category r.to) (λ x. refl) r.id s.products e
          ∙ ap (λ x. some x) (rw hit refl)),
    )

-- Two upgrades of one product, to a higher and to a lower category, that both read the row before
-- either updates it, both succeed; if the one to the lower category updates last, the product ends
-- in the lower category, below the one that it had been raised to.
pub upgrade_race_lowers :
    (low high : UpgradeRequest) (s : Shop) (p : Product)
    → MayUpgrade low.tenant low.id low.to low.requester s p
    → MayUpgrade high.tenant high.id high.to high.requester s p
    → high.id ≡ low.id
    → find_row low.id s ≡ some p
    → product_category_rank low.to < product_category_rank high.to
    → (raised final : Shop) × (upgrade_phase low (waiting, s) ≡ (checked p.category, s))
      × (upgrade_phase high (waiting, s) ≡ (checked p.category, s))
      × (upgrade_phase high (checked p.category, s)
          ≡ (answered (ok (with_category high.to p)), raised))
      × (upgrade_phase low (checked p.category, raised)
          ≡ (answered (ok (with_category low.to p)), final))
      × (find_row low.id raised ≡ some (with_category high.to p))
      × (find_row low.id final ≡ some (with_category low.to p))
upgrade_race_lowers low high s p may_low may_high same found lower =
    let raised = (upgrade_phase high (checked p.category, s)).1 in
    let (a, b) = finished high p.category s p (rw same found) in
    let (c, d) = finished low p.category raised (with_category high.to p) (rw (sym same) b) in
    (
      raised,
      (upgrade_phase low (checked p.category, raised)).1,
      MayUpgrade-checked low s p may_low,
      MayUpgrade-checked high s p may_high,
      ap (λ (x : UpgradePhase). (x, raised)) a,
      ap (λ (x : UpgradePhase). (x, (upgrade_phase low (checked p.category, raised)).1)) c,
      rw (sym same) b,
      d,
    )
