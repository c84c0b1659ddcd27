-- ===== src/Routes/Deputies/Redirect/Hold.antt =====
-- crates/beacon-api/src/routes.rs: under which conditions a Co-Steward redirects a letter.
use paschal.Base.{
  ℕ, ◌+◌, ◌<◌, String, ◌≡◌, refl, ap, sym, subst, ◌∙◌, List, [], ◌∷◌, ◌++◌, Bool, true, not, ◌&&◌, ◌==◌,
  ◌⊎◌, inl, inr, Option, none, some, is_some, is_none, ok, ltb, ℤ, max_zero, arith, after, Bool-cases, ==→≡,
}
use paschal.Base.Text.{contains, trim}
use paschal.Domain.VaultState.{released, eq}
use paschal.Domain.VaultState.Codec.{eq→≡}
use paschal.Domain.ReleaseMode
use paschal.Domain.ReleaseMode.Codec as ModeCodec
use paschal.Domain.ReleaseMode.{event_on_demand}
use paschal.Db.Sql.{insert}
use paschal.Db.Tables.{Store, Vault, Letter, CoSteward, RecipientChange, co_steward_is_active}
use paschal.Db.Vaults.{fetch_vault}
use paschal.Db.Deputies.{fetch_co_steward}
use paschal.Db.Letters.{fetch_letter}
use paschal.Db.Changes.{request_recipient_change}
use paschal.Db.Releases.{append_transparency_entry}
use paschal.App.World.{World, Platform, Message, bad_request, conflict, unauthorised, not_found, recipient_change_requested}
use paschal.App.Monad.{ask_result, ensure}
use paschal.App.Monad.Laws.{ok->>=, ok-ensure, ok-ask_result, ok_answer}
use paschal.Routes.Auth.{current_co_steward}
use paschal.Routes.Deputies.{authorise_postmortem}
use paschal.Routes.Deputies.Guard.{current_co_steward_reads}
use paschal.Routes.Deputies.Redirect.{is_editable, awaits_event, co_steward_update_recipient}

-- A Co-Steward of the principal, confirmed and not revoked, and the principal's vault, RELEASED.
abbrev pub MayAdminister : ℕ → ℕ → ℕ → Store → Type 0
MayAdminister co_id pid vault_id s =
    (co : CoSteward) × (v : Vault)
    × (fetch_co_steward co_id s ≡ ok co)
    × (is_some co.confirmed_at ≡ true)
    × (is_none co.revoked_at ≡ true)
    × (co.principal_id ≡ pid)
    × (fetch_vault vault_id s ≡ ok v)
    × (v.principal_id ≡ pid)
    × (v.state ≡ released)

-- An event letter that was not sent, or a letter with a date ahead.
abbrev pub IsAhead : ℕ → Letter → Type 0
IsAhead now l =
    ((l.release_mode ≡ event_on_demand) × (l.event_released_at ≡ none))
    ⊎ ((t : ℕ) × (l.scheduled_release_at ≡ some t) × (now < t))

two : (a b : Bool) → (a && b) ≡ true → (a ≡ true) × (b ≡ true)
two a b h = (ground (arith, h), ground (arith, h))

both : (a b c : Bool) → ((a && b) && c) ≡ true → (a ≡ true) × (b ≡ true) × (c ≡ true)
both a b c h = (ground (arith, h), ground (arith, h), ground (arith, h))

authorise_postmortem-MayAdminister :
    (co_id pid vault_id : ℕ) (w w' : World) (u : Unit {0})
    → authorise_postmortem co_id pid vault_id w ≡ (ok u, w')
    → MayAdminister co_id pid vault_id w.db × (w ≡ w')
unfolding authorise_postmortem co_steward_is_active
authorise_postmortem-MayAdminister co_id pid vault_id w w' u h =
    let (co, w₁, e₁, r₁) = ok->>= (ask_result (fetch_co_steward co_id)) _ w w' u h in
    let mine = co_steward_is_active co && co.principal_id == pid in
    let (u₂, w₂, e₂, r₂) = ok->>= (ensure mine unauthorised) _ w₁ w' u r₁ in
    let (v, w₃, e₃, r₃) = ok->>= (ask_result (fetch_vault vault_id)) _ w₂ w' u r₂ in
    let (u₄, w₄, e₄, r₄) = ok->>= (ensure (v.principal_id == pid) not_found) _ w₃ w' u r₃ in
    let (deputy, s₁) = ok-ask_result (fetch_co_steward co_id) w w₁ co e₁ in
    let (live, s₂) = ok-ensure mine unauthorised w₁ w₂ u₂ e₂ in
    let (stored, s₃) = ok-ask_result (fetch_vault vault_id) w₂ w₃ v e₃ in
    let (owned, s₄) = ok-ensure (v.principal_id == pid) not_found w₃ w₄ u₄ e₄ in
    let (state, s₅) = ok-ensure (eq v.state released) conflict w₄ w' u r₄ in
    let (confirmed, valid, same) = both (is_some co.confirmed_at) (is_none co.revoked_at) (co.principal_id == pid) live in
    (
      (
        co,
        v,
        deputy,
        confirmed,
        valid,
        ==→≡ co.principal_id pid same,
        ap (λ x. fetch_vault vault_id x.db) (s₁ ∙ s₂) ∙ stored,
        ==→≡ v.principal_id pid owned,
        eq→≡ v.state released state,
      ),
      s₁ ∙ s₂ ∙ s₃ ∙ s₄ ∙ s₅,
    )

none_if : {A : Type 0} (o : Option A) → is_none o ≡ true → o ≡ none
none_if none h = refl
none_if (some a) h = absurd (ground (arith, h))

date_ahead : (now : ℕ) (date : Option ℕ) → after date now ≡ true → (t : ℕ) × (date ≡ some t) × (now < t)
date_ahead now none h = absurd (ground (arith, h))
date_ahead now (some t) h = (t, refl, ground (arith, h))

is_editable-IsAhead : (now : ℕ) (l : Letter) → is_editable now l ≡ true → IsAhead now l
unfolding is_editable
is_editable-IsAhead now l h = elim (Bool-cases (awaits_event l)) [
  | inl e ↦
      let (event, unsent) = two (ReleaseMode.eq l.release_mode event_on_demand) (is_none l.event_released_at) e in
      inl (ModeCodec.eq→≡ l.release_mode event_on_demand event, none_if l.event_released_at unsent)
  | inr e ↦ inr (date_ahead now l.scheduled_release_at (ground (arith, e, h)))
]

module _ ⦃p : Platform⦄ where
  -- A redirection that is accepted has the session of a Co-Steward who is confirmed and not revoked,
  -- for a letter of a RELEASED vault of the Co-Steward's principal, whose delivery is still ahead: an
  -- event letter that was not sent, or one with a date ahead. It writes one change, with the time
  -- after the hold, leaves every letter as it is, and tells the address that the letter would have
  -- gone to.
  pub redirection_is_held :
      (now : ℕ) (hold : ℤ) (byte_length : String → ℕ) (headers : Option ℕ) (letter_id : ℕ)
      (email : String) (w w' : World) (change : RecipientChange)
      → co_steward_update_recipient now hold byte_length headers letter_id email w ≡ (ok change, w')
      → (deputy : ℕ × ℕ) × (letter : Letter) × ((current_co_steward now headers w).0 ≡ ok deputy)
        × (fetch_letter letter_id w.db ≡ ok letter)
        × MayAdminister deputy.0 deputy.1 letter.vault_id w.db
        × IsAhead now letter
        × (w'.db.recipient_changes ≡ insert change w.db.recipient_changes)
        × (w'.db.letters ≡ w.db.letters)
        × (change.applied_at ≡ none)
        × (change.old_email ≡ letter.recipient_email)
        × (change.effective_at ≡ now + max_zero hold)
        × (front : List Message) × (w'.outbox
            ≡ front
              ++ record { template = recipient_change_requested; to = letter.recipient_email } ∷ [])
  unfolding co_steward_update_recipient request_recipient_change append_transparency_entry
  redirection_is_held now hold byte_length headers letter_id email w w' change h =
      let ((co_id, pid), w₁, e₁, r₁) = ok->>= (current_co_steward now headers) _ w w' change h in
      let (letter, w₂, e₂, r₂) = ok->>= (ask_result (fetch_letter letter_id)) _ w₁ w' change r₁ in
      let (u₃, w₃, e₃, r₃) =
        ok->>= (authorise_postmortem co_id pid letter.vault_id) _ w₂ w' change r₂ in
      let valid = contains b'@' (trim email) && not (ltb 320 (byte_length (trim email))) in
      let (u₄, w₄, e₄, r₄) = ok->>= (ensure valid bad_request) _ w₃ w' change r₃ in
      let (u₅, w₅, e₅, r₅) = ok->>= (ensure (is_editable now letter) conflict) _ w₄ w' change r₄ in
      let same : w₁ ≡ w = sym (ap (λ r. r.1) e₁) ∙ current_co_steward_reads now headers w in
      let (stored, read) = ok-ask_result (fetch_letter letter_id) w₁ w₂ letter e₂ in
      let same₂ : w₂ ≡ w = sym read ∙ same in
      let (allowed, s₃) =
        authorise_postmortem-MayAdminister co_id pid letter.vault_id w₂ w₃ u₃ e₃ in
      let (_, s₄) = ok-ensure valid bad_request w₃ w₄ u₄ e₄ in
      let (ahead, s₅) = ok-ensure (is_editable now letter) conflict w₄ w₅ u₅ e₅ in
      let same₅ : w₅ ≡ w = sym (s₃ ∙ s₄ ∙ s₅) ∙ same₂ in
      let new : row_for w₅ co_id letter ≡ change = ok_answer (row_for w₅ co_id letter) change _ w' r₅ in
      (
        (co_id, pid),
        letter,
        ap (λ r. r.0) e₁,
        ap (λ v. fetch_letter letter_id v.db) (sym same) ∙ stored,
        subst (λ v. MayAdminister co_id pid letter.vault_id v.db) same₂ allowed,
        is_editable-IsAhead now letter ahead,
        ap (λ r. r.1.db.recipient_changes) (sym r₅)
            ∙ ap (λ c. insert c w₅.db.recipient_changes) new
            ∙ ap (λ v. insert change v.db.recipient_changes) same₅,
        ap (λ r. r.1.db.letters) (sym r₅) ∙ ap (λ v. v.db.letters) same₅,
        ap (λ c. c.applied_at) (sym new),
        ap (λ c. c.old_email) (sym new),
        ap (λ c. c.effective_at) (sym new),
        w₅.outbox,
        ap (λ r. r.1.outbox) (sym r₅),
      )
    where
      row_for : World → ℕ → Letter → RecipientChange
      row_for v co_id letter = record {
        id = p.random v.drawn;
        letter_id = letter_id;
        co_steward_id = co_id;
        old_email = letter.recipient_email;
        new_email = trim email;
        requested_at = now;
        effective_at = now + max_zero hold;
        applied_at = none;
        cancelled_at = none;
      }
