-- ===== src/Projection.antt =====
-- app/projections/projector.py: events become rows of the read model. `Json` has the conversions
-- of payload values, `Session` the database session, `Columns` the columns of its tables, `Rows` the row
-- operations, `Handlers` one handler for each event type, and `Service` the dispatch by the event's
-- name and the flush.
pub mod Json
pub mod Session
pub mod Columns
pub mod Rows
pub mod Handlers
pub mod Service
