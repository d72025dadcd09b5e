-- ===== src/Lib.antt =====
-- Procare backend: the board of repair orders of a chain of service centres, who may change
-- it, the phones that are lent meanwhile, the ordered lists that administrators edit, one-time codes,
-- and the sessions of the administrators. The program is a NestJS application
-- over PostgreSQL (through knex) and Redis.
--
-- The parts and their files:
-- Branches: src/branches/branch-hierarchy.service.ts. A tree of two levels: the Mother Branch and its
--   children. Who sees and who may write to which branch (Branches/Access). Branches/Membership:
--   `assignAdmins` and `removeAdmins` of src/branches/branches.service.ts, whether the one undoes the
--   other (RoundTrip) and what they change in these rights (Rights).
-- Database: the rows of the tables that the handlers share (src/common/types/*.interface.ts), and the
--   record `Db` of all these tables.
-- Permissions: src/repair-order-status-permission/repair-order-status-permissions.service.ts,
--   `findByRolesAndBranch` and `checkPermissionsOrThrow` (Permissions/Soundness).
-- Orders: src/repair-orders/repair-orders.service.ts. `RepairOrder` is a row of `repair_orders`. The
--   orders of a branch with one status are a column of the board, numbered by `sort`.
--   Orders/Board has the UPDATEs that renumber columns (`moveToTop`,
--   `handleStatusChangeReordering`, `handleSameStatusReordering`, `moveOrderToStatusAtTop`), with
--   what they do to the numbers: Counting counts the rows at a position, Rows writes one row,
--   Contiguity says what a numbered column is, Moves, Top, Columns and StatusChange show how rows
--   enter, move and leave. Orders/Access has the guards of the handlers, the change log
--   (src/repair-orders/services/repair-order-change-logger.service.ts) and the automatic assignment.
--   Orders/Handlers has `updateSort`, `softDelete`, `take`, `restoreToMother` and `moveToTopById`.
--   Orders/Handlers/Contiguity and BranchMoves follow the columns through them, Authorization says who
--   may run them.
--   Orders/Statuses looks statuses up, Orders/Transitions decides on status changes
--   (`validateStatusTransitionOrThrow`, `findAllowedStatusTransitions`; Guards, Rules and Validation
--   read the former off the tables, Offers the latter), and Orders/NoAnswer has
--   `recordCustomerNoAnswer` and `processDueCustomerNoAnswer`.
-- StatusTransitions: src/repair-order-status-transitions/repair-order-status-transitions.service.ts,
--   `create` (StatusTransitions/Replacement).
-- Otp: src/common/services/otp.service.ts, with the phone numbers that it formats (Otp/Phone), the
--   codes that can still be tried (Otp/Live), what a sent code is good for (Otp/Codes) and how many
--   guesses it stands (Otp/Lockout).
-- Redis: src/common/redis/redis.service.ts, `get`, `set` and `del` over a client that is given by its
--   laws (`RedisClient`); Redis/Store is such a client.
-- Auth: src/auth/auth.service.ts, src/common/guards/jwt-admin.guard.ts and the lookups of
--   src/admins/admins.service.ts that they use. `login`, `logout`, the guard and the reset of a password
--   (Auth/Sessions, Auth/Reset).
-- Ranking: column `sort` of the ordered lists, over any table with ids and positions
--   (src/common/utils/sort.util.ts and the UPDATEs of the `updateSort` handlers). Counting counts
--   rows, Relocation says where a move takes each row, Order keeps positions distinct or contiguous,
--   Keys is about ids, Forest about rows with a parent in the same table.
-- Catalogue: the services of such lists, with the events of src/history/history.service.ts.
--   Catalogue/RejectCauses: src/repair-order-reject-causes (Positions, Cache). Catalogue/Categories:
--   src/phone-categories (Phones) and src/problem-categories (Problems) on shared tables; Trees and
--   Runs follow order and parents, Links the problems of phone categories, Moves one change of position.
-- Rentals: src/repair-orders/services/rental-phone-updater.service.ts. The rental of an order is
--   created, updated and cancelled in Rentals, a record is edited and removed by its own id in
--   Rentals/Records; Holding, Edits and Runs follow who holds a device, Terminal the finished rentals,
--   Release a removal.
-- OrderProblems: src/common/utils/problem.util.ts, the problems of a repair order with their parts.
--   OrderProblems/Paths is about the walk to the ancestors of a problem, Written about the rows that a
--   request leaves, Accepted about its checks, Soundness about the requests that succeed.
-- Phone: src/common/utils/phone.util.ts (Phone/Lookup).
-- Common: lists as tables, tests on numbers, texts, sorting, and computations that may throw.
--
-- The state of the handlers is the record `Db`, its tables are lists of rows, and a query that
-- filters, updates or deletes is `select_where`, `update_where` or `delete_where` with the test of
-- its WHERE. A handler is a function from the tables to `Result Db`: a thrown HttpException is
-- `err` with its class and location, and carries no tables, since the handler rolls its transaction
-- back; the handlers of Rentals have no transaction, but throw before their first write.
-- A handler calls the guards and the writes in the order of the source.
--
-- Identifiers are UUIDs, taken as 128-bit numbers: they are compared for equality, and sorted in the
-- one place where the source sorts their text. Times are milliseconds. `sort` is never below 1 in
-- the numbered columns, so that the subtraction of the source does not stop at 0. Every loop is
-- structural recursion on a list, but for the recursive query of OrderProblems, whose fuel is the number
-- of rows: enough, as a walk meets no row twice where parents stand before their children.
--
-- What comes from outside is an argument: the clock, the ids that the database or the uuid package
-- makes, the random codes, whether an SMS was sent, bcrypt, sanitize-html, the signed token and
-- what passport says of it, and whether Redis can be reached.
--
-- Left out: exceptions of the database and the network; the caches in Redis (the permission cache is
-- taken to hold what the tables hold, flushes have no effect on the tables), but for the reject causes
-- cached by id, which are modelled with a Redis that may be unreachable; the early return of
-- `assertRepairOrderVisibility` without an injected branch service, which the module always injects; notifications, comments
-- on the change history and most of the global event log, which no handler here reads; `created_at` and
-- `updated_at` where nothing reads them; columns that the handlers here neither read nor write;
-- letters and spaces beyond ASCII in `trim` and `toLowerCase`. The handlers `create`, `update` and
-- `move` of repair orders, and the other services of the repository, are not modelled.
pub mod Common
pub mod Branches
pub mod Orders
pub mod Database
pub mod Permissions
pub mod Otp
pub mod Redis
pub mod Auth
pub mod StatusTransitions
pub mod Ranking
pub mod Catalogue
pub mod Rentals
pub mod OrderProblems
pub mod Phone
