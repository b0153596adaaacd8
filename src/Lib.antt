-- ===== src/Lib.antt =====
-- Verification library for mentorio, a management system for education centers: the logic of the
-- web client (frontend), which decides what a user sees and what is sent to the API.
--
-- The parts and how they interact. A page request first meets the guard of frontend/proxy.ts. A
-- page that is let through asks the API for its data through frontend/lib/api/client.ts, and the
-- weekly schedule pages place the lessons that they get with frontend/lib/schedule-layout.ts.
--
--   Prelude (and its children)  Boolean tests, lists and integers over the native numbers, text
--     as code units, a JavaScript Map with string keys, decimal numerals
--   Json, Http  the values that the client exchanges with the browser's fetch
--   Schedule  frontend/lib/schedule-layout.ts. `layout_day_lessons` is layoutDayLessons; the
--     loop's variables are the record `Column`, its body is `place`, with `flush` and `join` for
--     its parts. Order: the sort. Lanes: the invariant of the loop. Separate, Cover, Times: the
--     results. A numeral is read exactly, as a double is up to 15 digits
--   Phone  frontend/lib/phone.ts, the numbers of the forms. Canonical: the result
--   Access  frontend/proxy.ts and frontend/lib/portals.ts. `proxy` is the function of that name,
--     `role_home` the lookup in ROLE_PORTAL_MAP, with the keys of its prototype, `is_guarded` the
--     pattern of config.matcher, `handle` the two together. Portals states which page belongs to
--     whom without reference to the code's tables, but for the keys of Object.prototype
--   Client  frontend/lib/api/client.ts. A call takes the state of the browser page (`Page`: the
--     requests sent, the location, the pages assigned to it, the files saved) and the network's
--     state to an outcome and the next state. `api_fetch` is apiFetch; the call of
--     apiFetchWithRefresh with isRetry true is `api_fetch_retry`. Client.Pages: fetchPage and
--     fetchAllPages. Client.Flight: refreshPromise, which calls in flight share, as a state
--     machine over the list of events
--   Dates  the calendar dates of frontend/lib/utils.ts (Iso), lib/growth-metrics.ts and the
--     months of the finance, reports and calendar widgets (Months), the weeks of the schedule and
--     attendance pages (Week). A JavaScript Date at local midnight is the number of its day since
--     year 0: the time zone and what happens before that year are not modelled. Fields,
--     Iso.RoundTrip, Months.Shift, Months.Grid and Week.Columns: the results
--   Pagination  frontend/components/ui/pagination.tsx: the numbers of the page control. Sorting
--     and Window: the results
--   Api  the modules of frontend/lib/api over the client, one child for each (finance.ts is
--     Invoices, GroupBilling, Expenses and Payroll; billing.ts is Plans and PlatformBilling;
--     schedule.ts is LessonList and Lessons; students.ts is StudentLists and Students; teachers.ts
--     is TeacherLists and Teachers; payment-gateways.ts is Gateways; auth.ts is Auth and Login;
--     organizations.ts is Organizations and NewOrganization; settings.ts is Settings and
--     PlatformSettings; reports.ts, roles.ts, grades.ts and audit-logs.ts are Summaries). A
--     function and its options keep their names in this spelling: listInvoices is `list_invoices`,
--     its query `invoices_query`, a body that is sent `create_invoice_body`. A value that may be
--     undefined is an Option; the TypeScript unions of texts are texts, since the code does not
--     test them. Api.Rollback: the catch blocks of several calls. Students.Undone,
--     Students.Changed, Teachers.Undone and LessonList.Window: the results
--   Queries  the hooks of frontend/lib/queries over Api: useInvoicesQuery is
--     `use_invoices_query`, which gives what the hook hands to useQuery, and so for useMutation.
--     TanStack Query is the parameter Coherence.Client.QueryClient, whose laws say that
--     invalidating matches keys by their beginning. Coherence.Kept: the result
--   Stores  frontend/lib/store/toast-store.ts: Toasts has the store and its timers, as a step
--     relation with the time of the clock; Toasts.Timed: the result.
--     frontend/lib/store/create-entity-store.ts: Entities; Entities.Refined: the result
--   Screens  what pages of frontend/app do when something is typed, saved or submitted. A
--     handler takes the page's state, and a function that says how the calls which it makes come
--     out, to the calls, the toast and the next state. Results is the entry of exam results in
--     app/teacher/exams/page.tsx and app/(admin)/exams/_components/exam-results-panel.tsx;
--     Attendance is app/teacher/attendance/page.tsx; Grading the submissions of
--     app/teacher/assignments/page.tsx; Accounts the pages of app/(auth), the hooks use-logout.ts
--     and use-change-own-password.ts of lib/hooks, lib/store/auth-store.ts and i18n/locales.ts;
--     PlatformPayments and Csv app/super-admin/payments/page.tsx; Numbers sanitizeNumeric of
--     components/ui/input.tsx with the numbers that are typed. Their children: the results
--
-- Bounds and fuel. Every loop of the models is structural recursion on a list or on a count; only
-- the digits of a numeral are taken on fuel, one more than the number, which halts earlier. The
-- year of a date is searched downwards from the days over 365, which is late enough.
--
-- What is a parameter. The network with the server behind it is `send`, a function from a request
-- and the network's state to a response, or none where fetch rejects. Nothing is assumed of it but
-- what a theorem names. The cache of TanStack Query is a record of operations with the laws that
-- its documentation gives. The clock, toLowerCase on a center's name and the texts of the
-- browser's own errors are arguments of the definitions that use them.
--
-- What is not modelled. The backend, the database, the rendering of the screens, and the React
-- hooks but for those of Queries. The CSS lengths of a lesson block are kept as the numbers they
-- are made from. Times are read as the texts of digits that the API sends; a text that is no time
-- makes the layout `none`, where the code goes on with NaN. The pages that fetchAllPages asks for
-- at a time are asked for one after another. The types of the API's answers are not modelled: the
-- client hands the JSON on.
pub mod Prelude
pub mod Json
pub mod Http
pub mod Dates
pub mod Schedule
pub mod Phone
pub mod Pagination
pub mod Access
pub mod Client
pub mod Api
pub mod Queries
pub mod Stores
pub mod Screens
