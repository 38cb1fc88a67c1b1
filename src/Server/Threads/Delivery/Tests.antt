-- ===== src/Server/Threads/Delivery/Tests.antt =====
-- What the client receives whose login is broadcast.
use se3313a_lab.Base.{ℕ, ◌≡◌, ◌≢◌, refl, List, [], ◌∷◌, All}
use se3313a_lab.Msg.AnyInstance.{AnyInstance}
use se3313a_lab.Net.Socket.{read_vector}
use se3313a_lab.Net.FlexWaiter.{wait, dispatch, kill_event, first_ready, hold_event}
use se3313a_lab.Server.Room.{Event, quiet, entered, named, announced, broadcast, departed}
use se3313a_lab.Server.Sample.{as_listed, world, ready, call, second, second-Legal, greeted}
use se3313a_lab.Server.Threads.{
  free, sleeping, Run, here, follows, main_steps, looks, begins, sends, clears, hears, replies,
  names, pushes, hear,
}
use se3313a_lab.Server.Threads.Tests.{
  ann, welcome, opened, at, whole_text, wrote, last, sent_all, login_reply, is_started,
}
use se3313a_lab.Server.Threads.Ends.Tests.{entered_run}
use se3313a_lab.Server.Threads.Delivery.{texts_for, text_of, WholeRun}
use se3313a_lab.Server.Threads.Delivery.Answered.{client_receives}

abbrev events : List (Event (AnyInstance ℕ))
events =
    quiet
    ∷ quiet
    ∷ quiet
    ∷ named 0 "ann"
    ∷ quiet
    ∷ announced welcome
    ∷ quiet
    ∷ quiet
    ∷ broadcast welcome
    ∷ []

login_run : Run ann as_listed (at greeted free sleeping) events last
unfolding wait kill_event dispatch first_ready hear read_vector hold_event
login_run = follows (main_steps (hears second _ 0 opened _ refl second-Legal refl refl) refl) (
    follows (main_steps (replies 0 call "{}" opened _ login_reply) refl) (
      follows begins (
        follows (main_steps (names 0 "ann" welcome) refl) (
          follows clears (
            follows (main_steps (pushes welcome) refl) (
              follows (looks refl)
                (follows begins (follows (sends whole_text wrote sent_all) here))))))))

login_run-Whole : WholeRun ann as_listed login_run
unfolding login_run
login_run-Whole = (tt, (tt, (tt, (tt, (tt, (tt, (tt, (tt, ((λ w h text. refl), tt)))))))))

stays_in : All (λ e. e ≢ departed 0) events
stays_in = (
  (λ e. cc),
  (
    (λ e. cc),
    ((λ e. cc), ((λ e. cc), ((λ e. cc), ((λ e. cc), ((λ e. cc), ((λ e. cc), ((λ e. cc), tt))))))),
  ),
)

client_receives_example : texts_for 5 last.server.world.written ≡ text_of ann welcome ∷ []
unfolding login_run
client_receives_example =
    client_receives ann as_listed (λ h hs. refl) 3313 3 "" world ready.world ready refl is_started
      (at greeted free sleeping) last (quiet ∷ quiet ∷ entered 0 ∷ []) events entered_run login_run
      login_run-Whole refl 0 refl stays_in
