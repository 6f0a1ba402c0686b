-- ===== src/Generator/Runs.antt =====
-- The registry that the `init` of the generated file fills.
use gogame.Processor.{Processor}
use gogame.Text.{Text}
