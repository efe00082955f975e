-- ===== src/Channel.antt =====
-- The projections of tasks to a chat channel: persistence/channel.py, and the subscriptions and
-- bindings of `InMemoryChannelStore` (persistence/fake.py).
pub mod Contracts
pub mod Projection
pub mod Store
pub mod Advance
pub mod History
pub mod Fencing
pub mod Binding
pub mod Bind
pub mod Bound
pub mod Rebinding
