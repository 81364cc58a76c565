-- ===== src/Landing.antt =====
-- The effects of the landing page: `CountUp` and `Reveal` are
-- frontend/src/landing/composables/useReveal.js, and `Canvas` is
-- frontend/src/landing/sections/SignalCanvas.vue; `Pricing` is frontend/src/landing/App.vue with
-- frontend/src/landing/sections/PricingSection.vue. The other children are
-- about these: `Arrival` on the count, `Visible` on what is hidden, `Frames` on the wave.
pub mod CountUp
pub mod Arrival
pub mod Reveal
pub mod Canvas
pub mod Pricing
pub mod Visible
pub mod Frames
