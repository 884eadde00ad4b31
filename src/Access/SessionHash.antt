-- ===== src/Access/SessionHash.antt =====
-- `HandleSessionHashAuth` of internal/auth/auth.go.
use teldrive_easy.Prelude.{
  ℕ, ◌≡◌, ◌≢◌, refl, sym, ◌∙◌, Bool, true, false, ◌||◌, ==_false, ℕ_discrete,
}
use teldrive_easy.Access.Service.{Store, handle_session_hash_auth, is_not, refused, session_invalid}

is_not_ne : (a b : ℕ) → a ≢ b → is_not a b ≡ true
unfolding is_not
is_not_ne a b n = rw (==_false a b n) refl

or_true : (b : Bool) → (b || true) ≡ true
or_true true = refl
or_true false = refl

-- As two different operations have different names, a session's hash is never enough: the check
-- refuses it for every operation, the two that it is meant for included, and every session.
pub handle_session_hash_auth_refuses :
    (files_stream files_stream_head operation id : ℕ) (st : Store)
    → files_stream ≢ files_stream_head
    → handle_session_hash_auth files_stream files_stream_head operation id st
      ≡ (refused session_invalid, st)
unfolding handle_session_hash_auth
handle_session_hash_auth_refuses files_stream files_stream_head operation id st n =
    elim (ℕ_discrete operation files_stream) [
      | yes e ↦
          rw
            (
              is_not_ne operation files_stream_head (λ e'. n (sym e ∙ e')),
              or_true (is_not operation files_stream),
            )
            refl
      | no m ↦ rw (is_not_ne operation files_stream m) refl
    ]
