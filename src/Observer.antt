-- ===== src/Observer.antt =====
-- src/observer.rs: the events that a limiter reports. An observer's methods return nothing and
-- take `&self`, so an observer is modelled by the list of the calls that it has received, newest
-- first.
use shared_rate_limiter.Base.{Option, List}
use shared_rate_limiter.Types.{Key, Duration, Deny}
use shared_rate_limiter.Cost.{Cost}
use shared_rate_limiter.Feedback.{FeedbackScope}

pub data DenyReason : Type 0 where
  slow_start key_cardinality_bound feedback_backoff window_exhausted disabled : DenyReason

pub record DenyEvent : Type 0 where
  pub route_key : Key
  pub bucket_key : Key
  pub cost : Cost
  pub now : Duration
  pub deny : Deny
  pub reason : DenyReason

pub record FeedbackEvent : Type 0 where
  pub route_key : Key
  pub bucket_key : Key
  pub now : Duration
  pub retry_after : Duration
  pub scope : FeedbackScope
  pub bucket_remap : Option Key

pub data ObserverCall : Type 0 where
  on_deny : DenyEvent → ObserverCall
  on_feedback : FeedbackEvent → ObserverCall

abbrev pub Observer : Type 0
Observer = List ObserverCall
