-- ===== src/HostAgent/Util/Slots.antt =====
-- The agent and the scheduler read the same slot from an address.
use spwn.Base.{ℕ, String, ◌≡◌, Option, none, some}
use spwn.Base.Text.{is_dot, drop_past, take_until, parse_u32}
use spwn.ControlPlane.Scheduler
use spwn.ControlPlane.Scheduler.{slot_of, slot_address}
use spwn.HostAgent.Util.{ip_to_slot, third_of_four, or_none}

last_agrees :
    (o : Option String) (third : String) (n : ℕ)
    → or_none (third_of_four o third) parse_u32 ≡ some n
    → parse_u32 third ≡ some n
unfolding third_of_four
last_agrees none third n h = h
last_agrees (some rest) third n h = cc

third_agrees :
    (o : Option String) (third : String) (n : ℕ)
    → or_none o (λ fourth. or_none (third_of_four (drop_past is_dot fourth) third) parse_u32)
      ≡ some n
    → parse_u32 third ≡ some n
third_agrees none third n h = cc
third_agrees (some fourth) third n h = last_agrees (drop_past is_dot fourth) third n h

abbrev by_agent : String → Option ℕ
by_agent third = or_none (drop_past is_dot third) (λ fourth.
    or_none (third_of_four (drop_past is_dot fourth) (take_until is_dot third)) parse_u32)

abbrev by_scheduler : String → Option ℕ
by_scheduler third = parse_u32 (take_until is_dot third)

second_agrees :
    (o : Option String) (n : ℕ)
    → or_none o by_agent ≡ some n
    → Scheduler.or_none o by_scheduler ≡ some n
second_agrees none n h = cc
second_agrees (some third) n h = third_agrees (drop_past is_dot third) (take_until is_dot third) n h

first_agrees :
    (o : Option String) (n : ℕ)
    → or_none o (λ second. or_none (drop_past is_dot second) by_agent) ≡ some n
    → Scheduler.or_none o (λ second. Scheduler.or_none (drop_past is_dot second) by_scheduler)
      ≡ some n
first_agrees none n h = cc
first_agrees (some second) n h = second_agrees (drop_past is_dot second) n h

-- The slot that the agent takes from an address is the one that the scheduler counts as used.
pub ip_to_slot_agrees : (ip : String) (n : ℕ) → ip_to_slot ip ≡ some n → slot_of ip ≡ some n
unfolding ip_to_slot slot_of
ip_to_slot_agrees ip n h = first_agrees (drop_past is_dot ip) n h
