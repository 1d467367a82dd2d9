-- ===== src/Tests/Worker.antt =====
-- The theorems on the worker at a concrete panel.
use awg_control.Base.{
  ap, ◌∙◌, ◌==◌, if◌then◌else◌, ◌≡◌, ◌⊎◌, ◌==◌, refl, false, true, none, some, [], ◌∷◌, arith,
}
use awg_control.Base.Tables.{find_where, update_where}
use awg_control.Base.Tables.Laws.{find_where-update_where}
use mathlib.Core.Option
use awg_control.Contracts.{NodeStatus}
use awg_control.Exec.{ok}
use awg_control.Panel.{Panel}
use awg_control.Store.Nodes.{NodeSecretRecord, to_node}
use awg_control.Store.Traffic.Conservation.{IsBalanced}
use awg_control.Helper.{HelperClient, accepted}
use awg_control.Worker.{Worker, poll_node, tick, ready}
use awg_control.Worker.Frames.{HelperKeeps}
use awg_control.Worker.Polls.{poll_node_balances}
use awg_control.Worker.Schedule.{IsKnown, IsScheduled, poll_node_schedules}
use awg_control.Worker.Ticks.{AllFresh, IsRetained, tick_completes}
use awg_control.Tests.Data.{
  hashes, readings, calendar, site, site-IsBalanced, node, refusing, willing, is_ipv4,
}

abbrev secret : NodeSecretRecord
secret = record { node = to_node node; transport_private_key_encrypted = "key" }

-- A helper that answers a poll: the peer of the connection has received and sent.
abbrev answering : HelperClient
answering = record refusing {
  health =
      λ n q s. (ok (accepted (record { helper_version = "1.2.0"; protocol_version = "1.1" })), s);
  stats = λ n q s. (
    ok (
        accepted (
          record { public_key = "key"; rx_bytes = 100; tx_bytes = 40; last_handshake_at = some 5 }
          ∷ [])),
    s,
  );
  apply_policy = λ n q s. (ok (accepted []), s);
}

answering-Keeps : (P : Panel → Type 0) → HelperKeeps P answering
answering-Keeps P = record {
  health = λ n q. record { at = λ s h. h };
  stats = λ n q. record { at = λ s h. h };
  apply_policy = λ n q. record { at = λ s h. h };
}

poll_node_balances_example : IsBalanced (poll_node answering calendar secret (λ k. readings) site).1
poll_node_balances_example =
    poll_node_balances answering calendar secret (λ k. readings) site (answering-Keeps IsBalanced)
      site-IsBalanced

known : IsKnown 2 site
unfolding find_where
known = (node, refl)

-- Whatever the helper answers, other nodes may be renamed meanwhile.
abbrev renaming : Panel → Panel
renaming s = record s {
  nodes = update_where (λ n. n.id == 3) (λ n. record n { name = "renamed" }) s.nodes;
}

renaming-IsKnown : (s : Panel) → IsKnown 2 s → IsKnown 2 (renaming s)
renaming-IsKnown s (row, e) = (
  _,
  find_where-update_where (λ n. n.id == 2) (λ n. n.id == 3) (λ n. record n { name = "renamed" })
        s.nodes (λ n. refl)
      ∙ ap (Option.map (λ n. if n.id == 3 then record n { name = "renamed" } else n)) e,
)

abbrev interleaved : HelperClient
interleaved = record answering { health = λ n q s. ((answering.health n q s).0, renaming s) }

interleaved-Keeps : HelperKeeps (IsKnown 2) interleaved
interleaved-Keeps = record {
  health = λ n q. record { at = renaming-IsKnown };
  stats = λ n q. record { at = λ s h. h };
  apply_policy = λ n q. record { at = λ s h. h };
}

poll_node_schedules_example :
    ((poll_node interleaved calendar secret (λ k. readings) site).0 ≡ ok tt)
    × (IsScheduled 2 NodeStatus.healthy 1_000_002
          (poll_node interleaved calendar secret (λ k. readings) site).1
        ⊎ IsScheduled 2 NodeStatus.offline 1_000_004
            (poll_node interleaved calendar secret (λ k. readings) site).1)
unfolding to_node
poll_node_schedules_example =
    poll_node_schedules interleaved calendar secret (λ k. readings) site known interleaved-Keeps

abbrev worker : Worker
worker = record {
  panel = site;
  running = false;
  last_retention_day = none;
  worker_heartbeat_at = none;
}

abbrev ticked : Worker
ticked =
    tick answering calendar willing is_ipv4 hashes (λ a b. true) readings (λ k j. readings) worker

tick_completes_example :
    (ticked.running ≡ false)
    × (ready true 1_100_000 ticked ≡ true)
    × (ticked.last_retention_day ≡ some 0)
    × IsRetained readings none ticked.panel
    × AllFresh 1_000_005 ticked.panel
tick_completes_example =
    tick_completes answering calendar willing is_ipv4 hashes (λ a b. true) readings
      (λ k j. readings) true 1_100_000 worker refl (omega arith)
