-- ===== src/Libwaku/Runs.antt =====
-- library/libwaku.nim: the calls of a program, in any order.
use mathlib.Core.List.{append_assoc, append-nil}
use nwaku.Base.{
  All, ◌∙◌, ℕ, ◌+◌, ◌≤◌, Bool, true, false, ◌≡◌, ap, sym, refl, Option, none, List, [], ◌∷◌, ◌++◌,
  ◌⊎◌, arith, inl, inr,
}
use nwaku.Base.Program.{pure, ◌>>=◌, Ensures, Ensures-then_run, if_elim}
use nwaku.Message.{WakuMessage}
use nwaku.CClient.Requests.{Reply}
use nwaku.Libwaku.Requests.{NodeRequest, WakuNode}
use nwaku.Libwaku.Json.{Codecs}
use nwaku.Libwaku.State.{Lib, L}
use nwaku.Libwaku.Api.{serve}
use nwaku.Libwaku.Api.{relay_event}
use nwaku.Libwaku.Calls.{
  ApiCall, leaked_blocks, IsUnsubscribe, IsReply, nothing, destroyed, one, Effect,
}
use nwaku.Libwaku.Replies.{serve-Effect}

-- A reply for each call, as its callback demands.
abbrev pub Answered : List ApiCall → List Reply → Type 0
Answered [] [] = Unit
Answered [] (r ∷ rs) = ⊥
Answered (c ∷ cs) [] = ⊥
Answered (c ∷ cs) (r ∷ rs) = IsReply c.callback r × Answered cs rs

abbrev pub leaks : List NodeRequest → ℕ
leaks [] = 0
leaks (r ∷ rs) = leaked_blocks r + leaks rs

-- The context's own block.
abbrev pub context_blocks : Bool → ℕ
context_blocks true = 1
context_blocks false = 0

-- Whoever makes the call passes null for user data.
abbrev pub WithoutData : ApiCall → Type 0
WithoutData c = c.user_data ≡ none

no_data :
    {old new : Option ℕ} (u : Option ℕ)
    → (new ≡ old) ⊎ (new ≡ u)
    → u ≡ none
    → old ≡ none
    → new ≡ none
no_data u (inl same) given gone = same ∙ gone
no_data u (inr passed) given gone = passed ∙ given

module _ {N : Type 0} (node : WakuNode N) (codecs : Codecs) where
  unfoldable pub run_calls : List ApiCall → L N (List Reply)
  run_calls [] = pure []
  run_calls (c ∷ cs) = do
    reply ← serve node codecs c.context c.request c.callback c.user_data
    replies ← run_calls cs
    pure (reply ∷ replies)

  -- What calls in a row have done, from the state `s`.
  pub record Ran (calls : List ApiCall) (s : Lib N) (replies : List Reply) (t : Lib N)
      : Type 0 where
    pub answered : Answered calls replies
    pub requests : List NodeRequest
    pub sent : t.sent ≡ s.sent ++ requests
    pub left :
        context_blocks s.created ≤ s.blocks
        → (t.blocks + context_blocks s.created
            ≡ s.blocks + context_blocks t.created + leaks requests)
          × (context_blocks t.created ≤ t.blocks)
    pub gone : s.created ≡ false → t.created ≡ false
    pub subscribed : All (λ r. IsUnsubscribe r → ⊥) requests
    pub event_data : All WithoutData calls → s.event_user_data ≡ none → t.event_user_data ≡ none

  more-Ran :
      (c : ApiCall) (cs : List ApiCall) (s t v : Lib N) (r : Reply) (rs : List Reply)
      → Effect c.callback c.user_data s r t
      → Ran cs t rs v
      → Ran (c ∷ cs) s (r ∷ rs) v
  more-Ran c cs s t v r rs (reply, (nothing sent same blocks, passed)) ran = record {
    answered = (reply, ran.answered);
    requests = ran.requests;
    sent = ran.sent ∙ ap (λ qs. qs ++ ran.requests) sent;
    left = rw (same, blocks) at ran.left;
    gone = λ none_there. ran.gone (same ∙ none_there);
    subscribed = ran.subscribed;
    event_data = λ given old. ran.event_data given.1 (no_data c.user_data passed given.0 old);
  }
  more-Ran c cs s t v r rs (reply, (one q kept sent same blocks, passed)) ran = record {
    answered = (reply, ran.answered);
    requests = q ∷ ran.requests;
    sent =
        ran.sent ∙ ap (λ qs. qs ++ ran.requests) sent ∙ append_assoc s.sent (q ∷ []) ran.requests;
    left = λ fits.
        let (left, fits_after) = (rw (same, blocks) at ran.left) (omega (arith, fits)) in
        (omega (arith, left), fits_after);
    gone = λ none_there. ran.gone (same ∙ none_there);
    subscribed = (kept, ran.subscribed);
    event_data = λ given old. ran.event_data given.1 (no_data c.user_data passed given.0 old);
  }
  more-Ran c cs s t v r rs (reply, (destroyed sent there freed blocks, passed)) ran = record {
    answered = (reply, ran.answered);
    requests = ran.requests;
    sent = ran.sent ∙ ap (λ qs. qs ++ ran.requests) sent;
    left = λ fits.
        let fits_before : 1 ≤ s.blocks = rw there at fits in
        let (left, fits_after) = (rw (freed, blocks) at ran.left) (omega arith) in
        (rw there (omega (arith, left, fits_before)), fits_after);
    subscribed = ran.subscribed;
    gone = λ none_there. ran.gone freed;
    event_data = λ given old. ran.event_data given.1 (no_data c.user_data passed given.0 old);
  }

  pub run_calls-Ran : (cs : List ApiCall) (s : Lib N) → Ensures (Ran cs s) (run_calls cs s)
  unfolding run_calls
  run_calls-Ran [] s = record {
    answered = tt;
    requests = [];
    sent = sym (append-nil s.sent);
    left = λ fits. (omega arith, fits);
    gone = λ none_there. none_there;
    subscribed = tt;
    event_data = λ w e. e;
  }
  run_calls-Ran (c ∷ cs) s =
      Ensures-then_run (Effect c.callback c.user_data s) (Ran (c ∷ cs) s) _ _
        (serve-Effect node codecs c.user_data s c.context c.request c.callback)
        λ reply t effect.
          Ensures-then_run (Ran cs t) (Ran (c ∷ cs) s) (run_calls cs t) _ (run_calls-Ran cs t)
            λ replies v ran. more-Ran c cs s t v reply replies effect ran

  pub no_event :
      (t : Lib N) (topic : List ℕ) (msg : WakuMessage)
      → t.event_user_data ≡ none
      → relay_event node codecs t topic msg ≡ []
  no_event t topic msg gone = rw gone (if_elim (λ events. events ≡ []) t.event_callback refl refl)
