-- ===== src/Dialog.antt =====
-- frontend/src/admin/components/useDialogFocus.js: the keyboard focus of an open dialog. `Focus` has
-- its handlers, `Trap` what is proved of them.
pub mod Focus
pub mod Trap
