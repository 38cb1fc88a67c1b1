-- ===== src/Server/Invariant/Tests.antt =====
-- A server that has started and accepted one client.
use se3313a_lab.Base.{◌≡◌, refl, true, none, mem}
use se3313a_lab.Boost.{Library}
use se3313a_lab.Boost.Sample.{sample}
use se3313a_lab.Net.World.{open_at}
use se3313a_lab.Net.SocketServer.{bind_to, accept}
use se3313a_lab.Net.FlexWaiter.{wait, dispatch, kill_event, first_ready, hold_event, add_socket}
use se3313a_lab.Server.Sample.{
  as_listed, world, ready, first, first-Legal, greeted, second, second-Legal,
}
use se3313a_lab.Server.{start, socket_server_event}
use se3313a_lab.Server.Listen.{listen_round, notify}
use se3313a_lab.Server.Clients.{handles}
use se3313a_lab.Server.Invariant.{Inv}
use se3313a_lab.Server.Invariant.Reach.{Reach, started, listened, Reach-Inv, reached_reads_open}

abbrev pub no_json : Library
no_json = sample (λ s. none)

ready-Reach : Reach no_json as_listed ready
unfolding start bind_to
ready-Reach = started 3313 3 "" world ready.world ready refl refl refl

pub greeted-Reach : Reach no_json as_listed greeted
unfolding listen_round wait kill_event dispatch notify socket_server_event accept hold_event
    add_socket
greeted-Reach = listened first ready greeted ready-Reach refl first-Legal refl

greeted-Inv : Inv greeted
greeted-Inv = Reach-Inv no_json as_listed (λ h hs. refl) greeted greeted-Reach refl

reached_reads_open_example :
    (mem 0 (handles greeted.sockets) ≡ true) × (open_at greeted.world 0 ≡ true)
unfolding wait kill_event dispatch first_ready
reached_reads_open_example =
    reached_reads_open no_json as_listed (λ h hs. refl) greeted second greeted.flex_waiter 0
      greeted-Reach refl second-Legal refl
