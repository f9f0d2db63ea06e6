-- ===== src/Lib.antt =====
-- The frontend of the ISE endpoint portal: a single-page application (frontend/js) with which
-- network staff look up, register, import and change the endpoints of a Cisco ISE server, through
-- the portal's own backend. The library models the parts of it that decide something; the backend
-- and the browser are inputs.
--
-- Parts and files:
-- - Js/Text.antt: JavaScript strings as lists of UTF-16 code units, with the string methods that
--   the frontend calls. Letter case is that of ASCII.
-- - Csv.antt (frontend/js/csv.js): Row.antt has parseRow, stripQuotes and csvQuote, Mac.antt
--   MAC_RE, Template.antt the stored column template and parseTemplateHeader, Import.antt
--   parseCsv with its two formats, Export.antt toIseCsv. Row/Laws.antt, Template/Laws.antt,
--   Import/Laws.antt and Export/RoundTrip.antt hold the proofs.
-- - OfflineQueue.antt (frontend/js/offline_queue.js): the queue that localStorage holds, its
--   operations, and flushAll. An await lets other handlers run; what they do to the queue is a
--   list of actions that each turn of the loop takes as an argument, beside the outcome of the
--   API call.
-- - Session.antt (frontend/js/auth.js, and the refresh code of frontend/js/app.js): the two keys
--   of localStorage and the refresh timer as a record, each function of auth on it, and the
--   timer, the polling, the clearing and the end of a refresh call as events at a time in
--   Session/Refresh.antt; doSilentRefresh is two steps, the call and its answer, with the number
--   of calls that run beside the session.
-- - Routes.antt (frontend/js/app.js): the table of views and roles, currentRoute, renderView, the
--   landing page after a login, and the decision of boot. It uses the session of Session.antt.
-- - Condition.antt (frontend/js/views/policy-condition-builder.js): ISE conditions as a tree;
--   Condition/Flat.antt has buildCondition and flattenConditionToRows, Condition/Editor.antt the
--   nested editor: the elements that groupEditorHtml puts on the page, with the value that the
--   browser gives each input, and readGroupCondition on them.
-- - Browse.antt (frontend/js/views/browse-utils.js): Browse/Texts.antt has normalizeMac, esc, the
--   paths of groups and the ages, Browse/Columns.antt the order of the columns, the settings that
--   the browser and the backend both keep, and the marked addresses; Texts/Laws.antt,
--   Columns/Order.antt, Columns/Prefs.antt and Columns/Marks.antt hold the proofs.
-- - Browse/Filter.antt (frontend/js/views/browse-filter.js): the filters of the list as a record,
--   snapshotFilters, applyFilterSnapshot, the button that clears them, needsFilterMode and the
--   click on a header; Filter/Rows.antt has applyFiltersToRows. Filter/Times.antt,
--   Filter/Snapshots.antt, Filter/Mode.antt, Rows/Shown.antt and Rows/Kept.antt hold the proofs.
-- - Locale.antt (frontend/js/i18n.js): which language is active, after the page has loaded, after
--   a login and after a choice; Locale/Laws.antt holds the proofs.
-- - Tree.antt (frontend/js/views/browse-tree.js): the list as a tree; valueOf, bucketize and
--   applyMergesHidden, with a Map as a dictionary (Js/Dict.antt). Tree/Merge.antt has
--   mergeValues; Tree/Buckets.antt, Tree/Totals.antt, Tree/Taken.antt, Tree/Groups.antt,
--   Tree/Shown.antt, Merge/Disjoint.antt and Merge/History.antt hold the proofs. Tree/Layout.antt
--   has the layout that is kept, with Layout/RoundTrip.antt and Layout/Saving.antt, and
--   Layout/Limits.antt the limits that the backend sets to it (_safe_tree_layout of
--   backend/app/api/me.py); Tree/Paths.antt the paths of branches and effectiveDim, with
--   Paths/Parts.antt.
-- - Api.antt (frontend/js/api.js): what a call of the object api makes of its arguments;
--   Api/Endpoints.antt, Settings.antt, Portal.antt, Admin.antt, Policy.antt and Bulk.antt have
--   the calls in the source's order, Api/Call.antt all of them. Api/Reply.antt has request,
--   requestTimed and the uploads, from what fetch brings to what the caller gets, with the
--   session of Session.antt. Api/Outcomes.antt holds the proofs.
-- - ImportPage.antt (frontend/js/views/import.js): the page that imports a file, with its preview
--   and its import as events; it uses parseCsv of Csv.antt and the call of Api.antt.
--   ImportPage/Sent.antt holds the proofs.
-- - SelfRegister.antt (frontend/js/selfregister.js): the page for guests: lookupSession with what
--   each attempt brings, what the page shows, and the registrations it sends.
--   SelfRegister/Polling.antt and SelfRegister/Posts.antt hold the proofs.
-- - Register.antt (frontend/js/views/register.js): the registration page. Register/Mac.antt has
--   the address and the scanner, Context.antt what the page loads and what the user may do,
--   Form.antt the form, its templates and the payload, Page.antt the page with its submit handler
--   as two events, the call and its answer, over the queue of OfflineQueue.antt, and with another
--   view, such as the login after a 401, taking its place; Vendor.antt and Mine.antt have the
--   vendor's hint and the list of own endpoints. Mac/, Form/ and Page/ hold the proofs.
-- - Bulk.antt (frontend/js/views/browse-bulk.js): the actions on selected endpoints.
--   Bulk/Rows.antt has deleting and decommissioning on the rows of the list, Calls.antt the calls
--   that only report, Edit.antt the bulk edit of drawn rows, Radius.antt the templates of
--   attributes, Nmap.antt the scan window; Rows/, Edit/ and Radius/ hold the proofs.
-- - ServiceWorker.antt (frontend/service-worker.js): the caches and the three handlers;
--   ServiceWorker/Offline.antt holds the proofs.
-- - Js/Storage.antt: what localStorage holds under a key.
--
-- Loops: parseRow runs over fields with fuel, the length of the line and one more, which its own
-- theorem shows to be enough; lookupSession is recursion on the attempts that are left, with no
-- fuel; every other loop of the source is recursion on its list, text or tree.
--
-- Parameters: the outcomes of API calls, the time, the lists of known attribute values, and the
-- actions of handlers that run between two awaits are arguments. JSON and dates are represented
-- by what is read from them, with a case for a text that cannot be read. The order of
-- localeCompare is a function that sorts, and so is the sorting of the list by a column; the
-- columns (of the bulk edit, which of its inputs comes first), RegExp on a query and the time of
-- a date are functions; encodeURIComponent and the text of a number are functions, and JSON.parse
-- on a reply is one too, as is the len of Python, which counts code points.
--
-- Not modelled: rendering as such, styles, the message tables, the remaining views, and the rest
-- of the backend (backend/app).
pub mod Prelude
pub mod Js
pub mod Csv
pub mod OfflineQueue
pub mod Session
pub mod Routes
pub mod Condition
pub mod Browse
pub mod Locale
pub mod Tree
pub mod Api
pub mod ImportPage
pub mod SelfRegister
pub mod ServiceWorker
pub mod Register
pub mod Bulk
