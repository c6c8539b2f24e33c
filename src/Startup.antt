-- ===== src/Startup.antt =====
-- startup_hooks.py, the lifespan of main.py and `start` and `stop` of scheduler.py: the services
-- that the application starts and stops. A task is whether it has been created and not cancelled.
pub mod Hooks
use electa.Base.{ℕ, Bool, true, false, ◌&&◌, not, if◌then◌else◌}
use electa.Bus
use electa.Bus.{Bus}

pub record ProposalScheduler : Type 0 where
  pub running : Bool
  pub has_task : Bool

pub record Services (E : Type 0) : Type 0 where
  pub bus : Bus E
  pub scheduler : ProposalScheduler

-- `ProposalScheduler.__init__`, `start` and `stop`
abbrev pub new_scheduler : ProposalScheduler
new_scheduler = record { running = false; has_task = false }

abbrev pub start_scheduler : ProposalScheduler → ProposalScheduler
start_scheduler scheduler =
    if scheduler.running then scheduler else record { running = true; has_task = true }

abbrev pub stop_scheduler : ProposalScheduler → ProposalScheduler
stop_scheduler scheduler = record { running = false; has_task = false }

-- The number that `webhook_hook` has among the hooks.
abbrev pub webhook_hook : ℕ
webhook_hook = 0

module _ {E : Type 0} where
  -- `register_event_hooks`
  abbrev pub register_event_hooks : Bus E → Bus E
  register_event_hooks bus = Bus.register_hook webhook_hook bus

  abbrev pub new_services : Services E
  new_services = record { bus = Bus.init; scheduler = new_scheduler }

  -- `lifespan` before and after its `yield`
  unfoldable pub start_up : Services E → Services E
  start_up services = record {
    bus = register_event_hooks (Bus.start services.bus);
    scheduler = start_scheduler services.scheduler;
  }

  unfoldable pub shut_down : Services E → Services E
  shut_down services = record {
    scheduler = stop_scheduler services.scheduler;
    bus = Bus.stop services.bus;
  }
