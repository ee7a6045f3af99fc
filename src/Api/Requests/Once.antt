-- ===== src/Api/Requests/Once.antt =====
-- A request leaves one active job of its artefact, type and hints, and a second one like it adds none.
use arcology.Base.Text.{Text}
