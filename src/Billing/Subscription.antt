-- ===== src/Billing/Subscription.antt =====
-- app/billing/subscription.py: `SubscriptionService`, by groups of its methods. A call reads the clock
-- once; its time is the argument `now`, in microseconds.
pub mod Lookup
pub mod Trial
pub mod Activation
pub mod Impact
pub mod PlanChange
pub mod Ending
pub mod Audit
pub mod Audited
pub mod Started
pub mod Changed
pub mod Paid
