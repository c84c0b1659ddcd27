-- ===== src/Scheduler/Release/Deliver.antt =====
-- The deliveries of a release: their result, what they leave alone, and the claims they issue.
use paschal.Base.{
  ℕ, suc, ap, String, ◌≡◌, refl, ◌∙◌, Bool, ◌&&◌, ◌||◌, List, [], ◌∷◌, ok, arith, any, ◌==◌,
  ==_refl,
}
use paschal.Db.Sql.Lookup.{any-insert}
use paschal.Db.Tables.{Letter, Attachment, ReleaseClaim}
use paschal.Db.Letters.{letter_by_id, list_attachments}
use paschal.Db.Releases.{issue_release_claim, issue_attachment_claim}
use paschal.App.World.{World, Platform, release_notification}
use paschal.App.Monad.{for_each, notify}
use paschal.App.Monad.Laws.{bind-ok}
use paschal.Scheduler.Release.{deliver_attachment, deliver_letter}

-- What a delivery leaves alone.
pub record Kept (w w' : World) : Type 0 where
  pub vaults : w'.db.vaults ≡ w.db.vaults
  pub letters : w'.db.letters ≡ w.db.letters
  pub release_events : w'.db.release_events ≡ w.db.release_events

pub Kept-refl : (w : World) → Kept w w
Kept-refl w = record { vaults = refl; letters = refl; release_events = refl }

pub Kept-trans : (u v w : World) → Kept u v → Kept v w → Kept u w
Kept-trans u v w a b = record {
  vaults = b.vaults ∙ a.vaults;
  letters = b.letters ∙ a.letters;
  release_events = b.release_events ∙ a.release_events;
}

-- A claim on this letter from this release.
abbrev pub is_claim_for : ℕ → ℕ → ReleaseClaim → Bool
is_claim_for event_id letter_id c = c.letter_id == letter_id && c.release_event_id == event_id

module _ ⦃p : Platform⦄ (now event_id : ℕ) where
  attachments_lem :
      (email : String) (xs : List Attachment) (w : World)
      → let (r, w') = for_each xs (deliver_attachment now event_id email) w in
        (r ≡ ok tt) × Kept w w' × (w'.db.release_claims ≡ w.db.release_claims)
  unfolding deliver_attachment issue_attachment_claim
  attachments_lem email [] w = (refl, Kept-refl w, refl)
  attachments_lem email (x ∷ xs) w =
      let ih = attachments_lem email xs (deliver_attachment now event_id email x w).1 in
      (
        ih.0,
        record {
          vaults = ih.1.vaults;
          letters = ih.1.letters;
          release_events = ih.1.release_events;
        },
        ih.2,
      )

  deliver_letter_lem :
      (l : Letter) (w : World)
      → let (r, w') = deliver_letter now event_id l w in
        (r ≡ ok tt)
        × Kept w w'
        × ((i : ℕ)
            → any (is_claim_for event_id i) w'.db.release_claims
              ≡ (letter_by_id i l || any (is_claim_for event_id i) w.db.release_claims))
  unfolding deliver_letter issue_release_claim
  deliver_letter_lem l w =
      rw
        (bind-ok (for_each atts (deliver_attachment now event_id l.recipient_email))
          (λ _. notify release_notification l.recipient_email) w1 tt sent.0)
        (
          refl,
          record {
            vaults = sent.1.vaults;
            letters = sent.1.letters;
            release_events = sent.1.release_events;
          },
          λ i.
              ap (any (is_claim_for event_id i)) sent.2
              ∙ any-insert _ _ _
              ∙ ground (arith, ==_refl event_id),
        )
    where
      w1 : World
      w1 = record w {
        db =
            issue_release_claim now event_id l.id l.recipient_email
              (p.hash_token (p.random w.drawn)) 30 w.db;
        drawn = suc w.drawn;
      }

      atts : List Attachment
      atts = list_attachments l.id w1.db

      sent :
          let (r, w') = for_each atts (deliver_attachment now event_id l.recipient_email) w1 in
          (r ≡ ok tt) × Kept w1 w' × (w'.db.release_claims ≡ w1.db.release_claims)
      sent = attachments_lem l.recipient_email atts w1

  -- Delivering letters succeeds, and adds a claim for each of them and for no other.
  pub deliver_letters_lem :
      (ls : List Letter) (w : World)
      → let (r, w') = for_each ls (deliver_letter now event_id) w in
        (r ≡ ok tt)
        × Kept w w'
        × ((i : ℕ)
            → any (is_claim_for event_id i) w'.db.release_claims
              ≡ (any (letter_by_id i) ls || any (is_claim_for event_id i) w.db.release_claims))
  deliver_letters_lem [] w = (refl, Kept-refl w, λ i. refl)
  deliver_letters_lem (l ∷ ls) w =
      let one = deliver_letter_lem l w in
      let w1 = (deliver_letter now event_id l w).1 in
      let rest = deliver_letters_lem ls w1 in
      rw
        (bind-ok (deliver_letter now event_id l) (λ _. for_each ls (deliver_letter now event_id)) w
          tt one.0)
        (rest.0, Kept-trans w w1 _ one.1 rest.1, λ i. rest.2 i ∙ ground (arith, one.2 i))
