-- ===== src/Scheduler/Retention.antt =====
-- crates/beacon-api/src/scheduler.rs: the retention sweep, and the erasure of what a principal
-- has sealed. The blobs of the attachments are deleted by the blob store.
pub mod Erasure
use paschal.Base.{ℕ, String, List, Option, none, some, ok}
use paschal.Db.Tables.{Store, Vault, Letter, Attachment}
use paschal.Db.Vaults.{list_vaults}
use paschal.Db.Letters.{list_letters, list_attachments, purge_attachment, purge_letter_ciphertext}
use paschal.Db.Releases.{append_transparency_entry}
use paschal.Db.Subscriptions.{
  list_canceled_past_retention, expire_subscription, delete_subscription,
}
use paschal.Db.Accounts.{list_due_account_deletions, anonymise_principal}
use paschal.App.Monad.{Api, ◌>>=◌, ◌>>◌, continue, pure, ask, exec, call, for_each}

unfoldable pub purge_attachment_row : Attachment → Api (Unit {0})
purge_attachment_row attachment = do key ← call (purge_attachment attachment.id); pure tt

unfoldable pub purge_letter : Letter → Api (Unit {0})
purge_letter letter = do
  attachments ← ask (list_attachments letter.id)
  for_each attachments purge_attachment_row
  exec (purge_letter_ciphertext letter.id)

unfoldable pub purge_vault : Vault → Api (Unit {0})
purge_vault vault = do letters ← ask (list_letters vault.id); for_each letters purge_letter

unfoldable pub purge_principal_ciphertext : ℕ → Api (Unit {0})
purge_principal_ciphertext principal_id = do
  vaults ← ask (list_vaults principal_id)
  for_each vaults purge_vault

unfoldable pub sweep_subscription : ℕ → Api (Unit {0})
sweep_subscription principal_id = do
  exec (expire_subscription principal_id)
  purge_principal_ciphertext principal_id
  exec (delete_subscription principal_id)
  exec (append_transparency_entry "SUBSCRIPTION_EXPIRED_AND_DELETED" (some principal_id) none)

unfoldable pub sweep_account : (ℕ → String) → ℕ → Api (Unit {0})
sweep_account deleted_email principal_id = do
  purge_principal_ciphertext principal_id
  exec (anonymise_principal principal_id (deleted_email principal_id))
  exec (append_transparency_entry "ACCOUNT_DELETED" (some principal_id) none)

unfoldable pub retention_tick : ℕ → (ℕ → String) → Api (Unit {0})
retention_tick now deleted_email = do
  due ← ask (list_canceled_past_retention now)
  for_each due sweep_subscription
  deletions ← ask (list_due_account_deletions now)
  for_each deletions (sweep_account deleted_email)
