-- ===== src/Portal.antt =====
-- The customer portal. `Tenant` is frontend/src/portal/TokenApp.vue; `Order`, `Renewal` and `Lists` are the
-- pages of frontend/src/portal/views: OrderDetailView.vue, SubscriptionDetailView.vue, and PlansView.vue with
-- OrdersView.vue and SubscriptionsView.vue. The other children are about these: `Waited` on the tenant,
-- `Paying` on the order, `Renewing` on the renewal, and `Listed` on the lists.
pub mod Tenant
pub mod Waited
pub mod Order
pub mod Paying
pub mod Renewal
pub mod Renewing
pub mod Lists
pub mod Listed
