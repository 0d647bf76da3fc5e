-- ===== src/Lib.antt =====
-- The client of TSTLAN: a web application by which laboratory devices are watched and their
-- configurations edited (web/tstlan-web). The pages hold their state in React components and ask the
-- server over HTTP; the functions of web/tstlan-web/lib carry the rules that do not depend on a page.
--
-- What models which part:
--   Base          helpers: lists, Boolean tests, text as UTF-16 code units (Base.Text), dictionaries
--                 and sets as lists in insertion order (Base.Record), stable sorting (Base.Sort),
--                 JavaScript numbers (Base.Number), their decimal texts and rounding, and
--                 encodeURIComponent (Base.Uri);
--   Api           the types of lib/api.ts, and the result of a request;
--   Requests      lib/api.ts: how a request is made and ends by its response; Requests.Calls the
--                 functions that send one, with its address, headers and body;
--   Config        lib/configs.ts: the draft and its tables; Config.Fields the parsers of numbers,
--                 Config.Validate validateConfigForm, Config.Payload draftToPayload and configToDraft,
--                 Config.Offsets variableOffsets and formatOffset, Config.Access the labels,
--                 availableGrantees and lib/config-errors.ts;
--   History       lib/history.ts, seedHistory;
--   Chart.Brush   lib/chart-brush.ts;
--   Chart.Grid    lib/chart-grid.ts, niceTimeTicks;
--   Chart.Rows    buildRows and columnValues in components/time-series-chart.tsx;
--   Chart.Indicators, Chart.View, Chart.Legend  the statistics, the states and the render, and the
--                 legend and tooltip there;
--   Device.Graph  lib/device-graph.ts, pickDeviceConfig and graphSelection;
--   Device.Panel  the grouping of lines by ChartPanel in components/device-monitor.tsx;
--   Device.Monitor  the states and handlers of DeviceMonitor there, and the relation of their steps;
--   Device.Write  the rows of variables and the field that writes a value, there too;
--   Device.Charts the charts that ChartPanel shows, their lines and headers, the windows of time and
--                 the dialog of one chart;
--   Device.Screen what the page of a device shows, and lib/devices.ts;
--   Session       components/auth-provider.tsx and app/login/page.tsx;
--   Editor        components/config-editor.tsx, components/share-panel.tsx and
--                 app/configs/new/page.tsx: loading, saving, grants, removal and creation;
--   Form          components/config-form.tsx: which inputs are shown, enabled and told an error, and
--                 the edits of the rows; Form.Saving a save in flight and its confirmation in time;
--   EditorView    what the page of a configuration and its panel of grants show;
--   Listing       app/configs/page.tsx and app/devices/page.tsx, and the users of the share panel;
--   SiteHeader    components/site-header.tsx;
--   Tests         concrete data, and the theorems at it.
--
-- How the parts meet: the form edits a draft (Config), shows what the validation reports (Form) and
-- hands the draft to a page (Editor), which sends it with the token of the session (Session). The page
-- of a device (Device.Monitor) puts the history of the server and the stream together (History) and
-- shows the lines that the chosen configuration marks (Device.Graph) on charts (Device.Panel): a chart
-- of the panel (Device.Charts) is given series of the history, merges them into rows (Chart.Rows), and
-- draws those of its window with a grid (Chart.Grid) and a selection (Chart.Brush). What a page sends
-- is a request (Requests).
--
-- Names follow the source in snake case: draftToPayload is draft_to_payload. An absent property and
-- null are none. A record of the source used as a dictionary is an association list in which only own
-- keys are seen. A number that the source only compares or counts with is a natural number; a number
-- that comes from a text is a JavaScript number, rounded to a double, infinite above its range, without
-- the sign of zero. Times are natural numbers of milliseconds. A state updater is a function of
-- the state; a handler that waits for a request takes its result, or the server as a function from the
-- request to its result, and is the state after both of its updates.
--
-- The values of samples are of any type. A chart that takes one as a time, or a time as a value, has
-- the two directions as parameters, and its statistics have the operations on doubles as one. So are
-- the offset of the time zone, the text of a time, the lower case of a text, the prints of a number,
-- JSON, and the response of the server.
--
-- Bounds: the loop over the ticks has more fuel than the span has milliseconds, and a step is at least
-- one; the digits of n are computed on fuel n, which is enough since a digit divides by ten; the
-- rounding to a double tries the 972 exponents that a double has, and a number that fits none is
-- infinite. The print of integers of absolute value 2 ^ 53 and more is a parameter, as is the
-- comparison of texts by locale, of which a consistent order is asked.
--
-- Not modelled: styles, the inside of fetch, JSON and EventSource, the router beyond the path, menus and
-- dialogs of the component library, the drawing of charts by recharts, pages that are only markup, the
-- server in Python.
pub mod Base
pub mod Api
pub mod Requests
pub mod Config
pub mod History
pub mod Chart
pub mod Device
pub mod Session
pub mod Editor
pub mod Form
pub mod EditorView
pub mod Listing
pub mod SiteHeader
pub mod Tests
