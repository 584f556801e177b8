-- ===== src/Sdk/Discriminator.antt =====
-- packages/sdk/src/discriminator.ts, and the same of events.ts: the first eight bytes of a SHA-256.
use playkaboom.Common.{◌≡◌, arith, String, ◌++◌, length, length-take, codes}
use playkaboom.Sdk.Buffer.{Bytes, subarray}
use playkaboom.Sdk.Web3.{Web3, IsWeb3}

module _ (w : Web3) where
  open w use {sha256}

  abbrev tagged : String → String → Bytes
  tagged tag name = subarray 0 8 (sha256 (codes tag ++ codes name))

  unfoldable pub ix_discriminator : String → Bytes
  ix_discriminator name = tagged "global:" name

  unfoldable pub account_discriminator : String → Bytes
  account_discriminator name = tagged "account:" name

  unfoldable pub event_discriminator : String → Bytes
  event_discriminator name = tagged "event:" name

module _ {w : Web3} (h : IsWeb3 w) where
  length-tagged : (tag name : String) → length (tagged w tag name) ≡ 8
  length-tagged tag name = omega (
    arith,
    h.length-sha256 (codes tag ++ codes name),
    length-take 8 (w.sha256 (codes tag ++ codes name)),
  )

  pub length-ix_discriminator : (name : String) → length (ix_discriminator w name) ≡ 8
  unfolding ix_discriminator
  length-ix_discriminator name = length-tagged "global:" name

  pub length-account_discriminator : (name : String) → length (account_discriminator w name) ≡ 8
  unfolding account_discriminator
  length-account_discriminator name = length-tagged "account:" name

  pub length-event_discriminator : (name : String) → length (event_discriminator w name) ≡ 8
  unfolding event_discriminator
  length-event_discriminator name = length-tagged "event:" name
