-- ===== src/Models.antt =====
-- The tables of the workflow: models/workflow.py, models/interaction.py and models/lead.py.
mod Enums
mod Job
mod Usage
mod Calls
mod Audit
mod State
unfoldable pub use Enums.*
pub use Job.*
pub use Usage.*
pub use Calls.*
pub use Audit.*
pub use State.*
